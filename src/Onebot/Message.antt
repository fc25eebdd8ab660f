-- ===== src/Onebot/Message.antt =====
-- adapters/onebot11/message.go: the segment constructors, and the names that the wire uses. Arguments of
-- type `any` are the text that fmt.Sprint gives for them. A custom forward node holds a chain and is
-- not modelled.
use anybot.Base.{none, some, [], ◌∷◌, map, Text, codes, if◌then◌else◌, ◌==◌}
use anybot.Base.{Dict, lookup, insert, delete}
use anybot.Core.Message.{Value, str, Segment, Chain, raw}
use anybot.Core.Rules.{sprint}

-- At, Reply, Face, Record, JSON, XML, Share, Music, CustomMusic and Node
abbrev pub at : Text → Segment
at qq = raw (codes "at") ((codes "id", str qq) ∷ [])

abbrev pub reply : Text → Segment
reply id = raw (codes "reply") ((codes "id", str id) ∷ [])

abbrev pub face : Text → Segment
face id = raw (codes "face") ((codes "id", str id) ∷ [])

abbrev pub voice : Text → Segment
voice file = raw (codes "record") ((codes "file", str file) ∷ [])

abbrev pub json : Text → Segment
json content = raw (codes "json") ((codes "data", str content) ∷ [])

abbrev pub xml : Text → Segment
xml content = raw (codes "xml") ((codes "data", str content) ∷ [])

abbrev pub share : Text → Text → Text → Text → Segment
share url title content picture = raw (codes "share") (
    (codes "url", str url)
    ∷ (codes "title", str title)
    ∷ (codes "content", str content)
    ∷ (codes "image", str picture)
    ∷ [])

abbrev pub music : Text → Text → Segment
music kind id = raw (codes "music") ((codes "type", str kind) ∷ (codes "id", str id) ∷ [])

abbrev pub node : Text → Segment
node id = raw (codes "node") ((codes "id", str id) ∷ [])

-- A key is renamed where it is there, and its value printed.
unfoldable pub rename : Text → Text → Dict Value → Dict Value
rename old new params = elim (lookup old params) [
  | none ↦ params
  | some v ↦ delete old (insert new (str (sprint v)) params)
]

-- The body of the loop of fromWireChain.
unfoldable pub from_wire : Segment → Segment
unfolding rename
from_wire seg =
    if seg.kind == codes "at"
    then record seg { fields = rename (codes "qq") (codes "id") seg.fields }
    else seg

unfoldable pub from_wire_chain : Chain → Chain
from_wire_chain chain = map from_wire chain

-- The body of the loop of toWireChain.
unfoldable pub to_wire : Segment → Segment
unfolding rename
to_wire seg =
    if seg.kind == codes "at"
    then record seg { fields = rename (codes "id") (codes "qq") seg.fields }
    else seg

unfoldable pub to_wire_chain : Chain → Chain
to_wire_chain chain = map to_wire chain
