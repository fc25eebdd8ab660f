-- ===== src/Core/KeyedLocks/Steps.antt =====
-- core/scheduler.go: every step keeps the counts.
use anybot.Base.{
  ℕ, ◌-◌, ◌≡◌, refl, ◌∙◌, inl, inr, true, false, none, some, List, [], ◌∷◌, ◌++◌, arith, Bool-cases,
  Text, if◌then◌else◌,
}
use anybot.Base.{
  Dict, lookup, insert, delete, lookup-insert, lookup-delete, eqb, eq_refl, All, All-append,
  All-imp,
}
use anybot.Core.KeyedLocks.{
  KeyedLocks, register, hold, unregister, Phase, idle, waiting, holding, leaving,
}
use anybot.Core.KeyedLocks.Invariant.{
  uses, holds, total, total-append, Listed, IsCounted, holds-le-uses, Listed-insert, Listed-delete,
}

All-split :
    (P : Phase → Type 0) (pre post : List Phase) (p : Phase)
    → All P (pre ++ p ∷ post)
    → All P pre × P p × All P post
All-split P [] post p (h, k) = (tt, h, k)
All-split P (q ∷ pre) post p (h, k) = let (a, b, c) = All-split P pre post p k in ((h, a), b, c)

All-join :
    (P : Phase → Type 0) (pre post : List Phase) (p : Phase)
    → All P pre
    → P p
    → All P post
    → All P (pre ++ p ∷ post)
All-join P pre post p a b c = All-append P pre (p ∷ post) a (b, c)

-- A step of one caller that leaves the table alone.
module _ (pre post : List Phase) where
  pub IsCounted-new :
      (key : Text) (l : KeyedLocks)
      → lookup key l.table ≡ none
      → IsCounted l (pre ++ idle ∷ post)
      → IsCounted (register key l).1 (pre ++ waiting key (register key l).0 ∷ post)
  unfolding register
  IsCounted-new key l n c =
      let (a, b, d) = All-split (Listed l.table) pre post idle c.listed in
      rw (n, register)
        (record {
          refs_count = λ i. ground (
            arith,
            c.refs_count i,
            c.unused l.next (omega arith),
            total-append (uses i) pre (idle ∷ post),
            total-append (uses i) pre (waiting key l.next ∷ post),
          );
          held_count = λ i. ground (
            arith,
            c.held_count i,
            c.refs_count i,
            c.unused l.next (omega arith),
            holds-le-uses i (pre ++ idle ∷ post),
            total-append (holds i) pre (idle ∷ post),
            total-append (holds i) pre (waiting key l.next ∷ post),
          );
          listed =
              All-join (Listed (insert key l.next l.table)) pre post (waiting key l.next)
                (All-imp (λ p h. Listed-insert l.table key l.next p n h) pre a)
                (lookup-insert key key l.next l.table ∙ rw (eq_refl key) refl)
                (All-imp (λ p h. Listed-insert l.table key l.next p n h) post d);
          known = λ k i h. ground (arith, h, lookup-insert key k l.next l.table, c.known k i);
          unused = λ i le. ground (arith, c.unused i (omega (arith, le)), le);
        })

  pub IsCounted-again :
      (key : Text) (j : ℕ) (l : KeyedLocks)
      → lookup key l.table ≡ some j
      → IsCounted l (pre ++ idle ∷ post)
      → IsCounted (register key l).1 (pre ++ waiting key (register key l).0 ∷ post)
  unfolding register
  IsCounted-again key j l n c =
      let (a, b, d) = All-split (Listed l.table) pre post idle c.listed in
      rw (n, register)
        (record {
          refs_count = λ i. ground (
            arith,
            c.refs_count i,
            total-append (uses i) pre (idle ∷ post),
            total-append (uses i) pre (waiting key j ∷ post),
          );
          held_count = λ i. ground (
            arith,
            c.held_count i,
            total-append (holds i) pre (idle ∷ post),
            total-append (holds i) pre (waiting key j ∷ post),
          );
          listed = All-join (Listed l.table) pre post (waiting key j) a n d;
          known = c.known;
          unused = λ i le. ground (arith, c.unused i le, le, c.known key j n);
        })

  pub IsCounted-hold :
      (key : Text) (j : ℕ) (l : KeyedLocks)
      → l.held j ≡ false
      → IsCounted l (pre ++ waiting key j ∷ post)
      → IsCounted (hold true j l) (pre ++ holding key j ∷ post)
  IsCounted-hold key j l n c =
      let (a, b, d) = All-split (Listed l.table) pre post (waiting key j) c.listed in
      record {
        refs_count = λ i. ground (
          arith,
          c.refs_count i,
          total-append (uses i) pre (waiting key j ∷ post),
          total-append (uses i) pre (holding key j ∷ post),
        );
        held_count = λ i. ground (
          arith,
          n,
          c.held_count i,
          total-append (holds i) pre (waiting key j ∷ post),
          total-append (holds i) pre (holding key j ∷ post),
        );
        listed = All-join (Listed l.table) pre post (holding key j) a b d;
        known = c.known;
        unused = c.unused;
      }

  pub IsCounted-unhold :
      (key : Text) (j : ℕ) (l : KeyedLocks)
      → IsCounted l (pre ++ holding key j ∷ post)
      → IsCounted (hold false j l) (pre ++ leaving key j ∷ post)
  IsCounted-unhold key j l c =
      let (a, b, d) = All-split (Listed l.table) pre post (holding key j) c.listed in
      record {
        refs_count = λ i. ground (
          arith,
          c.refs_count i,
          total-append (uses i) pre (holding key j ∷ post),
          total-append (uses i) pre (leaving key j ∷ post),
        );
        held_count = λ i. ground (
          arith,
          c.held_count i,
          total-append (holds i) pre (holding key j ∷ post),
          total-append (holds i) pre (leaving key j ∷ post),
        );
        listed = All-join (Listed l.table) pre post (leaving key j) a b d;
        known = c.known;
        unused = c.unused;
      }

unused_all :
    (table : Dict ℕ) (key : Text) (j : ℕ) (ps : List Phase)
    → lookup key table ≡ some j
    → total (uses j) ps ≡ 0
    → All (Listed table) ps
    → All (Listed (delete key table)) ps
unused_all table key j [] s t h = tt
unused_all table key j (p ∷ ps) s t (h, k) = (
  Listed-delete table key j p s (omega (arith, t)) h,
  unused_all table key j ps s (omega (arith, t)) k,
)

-- The table of `unregister`, whether the item is deleted or not.
kept_list :
    (l : KeyedLocks) (key : Text) (j : ℕ) (ps : List Phase)
    → lookup key l.table ≡ some j
    → (l.refs j - 1 ≡ 0 → total (uses j) ps ≡ 0)
    → All (Listed l.table) ps
    → All (Listed (if eqb (l.refs j - 1) 0 then delete key l.table else l.table)) ps
kept_list l key j ps s last h = elim (Bool-cases (eqb (l.refs j - 1) 0)) [
  | inl e ↦ rw e (unused_all l.table key j ps s (last (ground (arith, e))) h)
  | inr e ↦ rw e h
]

pub IsCounted-leave :
    (pre post : List Phase) (key : Text) (j : ℕ) (l : KeyedLocks)
    → IsCounted l (pre ++ leaving key j ∷ post)
    → IsCounted (unregister key j l) (pre ++ idle ∷ post)
unfolding unregister
IsCounted-leave pre post key j l c =
    let (a, b, d) = All-split (Listed l.table) pre post (leaving key j) c.listed in
    let sum = total-append (uses j) pre (leaving key j ∷ post) in
    record {
      refs_count = λ i. ground (
        arith,
        c.refs_count i,
        c.refs_count j,
        total-append (uses i) pre (leaving key j ∷ post),
        total-append (uses i) pre (idle ∷ post),
      );
      held_count = λ i. ground (
        arith,
        c.held_count i,
        total-append (holds i) pre (leaving key j ∷ post),
        total-append (holds i) pre (idle ∷ post),
      );
      listed =
          All-join (Listed (unregister key j l).table) pre post idle
            (kept_list l key j pre b (λ e. ground (arith, e, c.refs_count j, sum)) a) tt
            (kept_list l key j post b (λ e. ground (arith, e, c.refs_count j, sum)) d);
      known = λ k i h. ground (arith, h, lookup-delete key k l.table, c.known k i);
      unused = λ i le. ground (arith, c.unused i le, c.unused j);
    }
