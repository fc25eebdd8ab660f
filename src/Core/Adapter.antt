-- ===== src/Core/Adapter.antt =====
-- core/state.go: the adapter's state, the hooks and those who wait for a change. A channel is a number,
-- and those that are closed are kept in a list; the clock's time is an argument.
pub mod Waiting
use anybot.Base.{
  ℕ, zero, suc, ◌+◌, ◌-◌, ◌≤◌, ◌<◌, ◌≡◌, refl, sym, ap, ◌∙◌, subst, ◌≢◌, ◌↔◌, ◌⊎◌, inl, inr, Bool,
  true, false, not, ◌&&◌, ◌||◌, Option, none, some, List, [], ◌∷◌, ◌++◌, map, arith, Bool-cases,
  Option-cases, Text, codes, if◌then◌else◌,
}
use anybot.Base.{eqb}
use anybot.Core.Errors.{Error, Sentinel, sentinel}

-- AdapterStateKind, with the empty one.
pub data Kind : Type 0 where
  unset unknown starting ready disconnected stopped : Kind

pub record AdapterState : Type 0 where
  pub protocol : Text
  pub kind : Kind
  pub action_ready : Bool
  pub transport : Text
  pub reason : Text
  pub problem : Option Error
  pub at : ℕ

abbrev pub is_ready : Kind → Bool
is_ready Kind.ready = true
is_ready _ = false

abbrev pub or_unknown : Kind → Kind
or_unknown Kind.unset = Kind.unknown
or_unknown k = k

-- normalizeAdapterState
unfoldable pub normalize : ℕ → AdapterState → AdapterState
normalize now s = record s {
  kind = or_unknown s.kind;
  at = if eqb s.at 0 then now else s.at;
  action_ready = is_ready (or_unknown s.kind) && s.action_ready;
}

-- The part of App that state.go keeps; a hook acts on the world.
pub record Board (W : Type 0) : Type 0 where
  pub state : AdapterState
  pub hooks : List (Option (AdapterState → W → W))
  pub waiters : List ℕ
  pub closed : List ℕ
  pub next_channel : ℕ

-- One round of WaitActionReady: it returns, or blocks on a channel.
pub data Round : Type 0 where
  granted refused : Round
  blocked : ℕ → Round

abbrev pub is_stopped : Kind → Bool
is_stopped Kind.stopped = true
is_stopped _ = false

module _ {W : Type 0} where
  -- OnAdapterState
  unfoldable pub on_adapter_state : Option (AdapterState → W → W) → Board W → Board W
  on_adapter_state none b = b
  on_adapter_state (some hook) b = record b { hooks = b.hooks ++ some hook ∷ [] }

  -- AdapterState
  unfoldable pub adapter_state : ℕ → Board W → AdapterState
  unfolding normalize
  adapter_state now b = normalize now b.state

  unfoldable pub call_hooks : List (Option (AdapterState → W → W)) → AdapterState → W → W
  call_hooks [] s w = w
  call_hooks (none ∷ hooks) s w = call_hooks hooks s w
  call_hooks (some hook ∷ hooks) s w = call_hooks hooks s (hook s w)

  -- updateAdapterState: the part under the lock with the closing of the channels, and the hooks.
  unfoldable pub publish : ℕ → AdapterState → Board W → Board W
  unfolding normalize
  publish now s b = record b {
    state = normalize now s;
    waiters = [];
    closed = b.closed ++ b.waiters;
  }

  unfoldable pub update : ℕ → AdapterState → Board W → W → Board W × W
  unfolding publish call_hooks
  update now s b w = (publish now s b, call_hooks b.hooks (normalize now s) w)

  -- waitAdapterStateChange
  unfoldable pub wait_change : ℕ → Board W → ℕ × AdapterState × Board W
  unfolding adapter_state
  wait_change now b =
      let s = adapter_state now b in
      let ch = b.next_channel in
      if s.action_ready
      then (ch, s, record b { next_channel = suc ch; closed = b.closed ++ ch ∷ [] })
      else (ch, s, record b { next_channel = suc ch; waiters = b.waiters ++ ch ∷ [] })

  unfoldable pub wait_round : ℕ → Board W → Round × Board W
  unfolding wait_change
  wait_round now b =
      let (ch, s, b') = wait_change now b in
      (if s.action_ready then granted else if is_stopped s.kind then refused else blocked ch, b')
