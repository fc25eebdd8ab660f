-- ===== src/Core/Adapter/Waiting.antt =====
-- core/state.go: nobody who waits for the adapter misses a change.
use anybot.Base.{ℕ, ◌≡◌, refl, ◌↔◌, Bool, true, false, ◌&&◌, ◌||◌, List, [], ◌∷◌, ◌++◌, arith}
use anybot.Base.{eqb}
use anybot.Core.Adapter.{
  is_stopped, Kind, AdapterState, is_ready, or_unknown, normalize, Board, adapter_state, publish,
  wait_change, granted, refused, blocked, wait_round,
}

-- What happens to the board: a report of the adapter, or a round of one who waits.
pub data Move : Type 0 where
  report : ℕ → AdapterState → Move
  ask : ℕ → Move

abbrev pub has : ℕ → List ℕ → Bool
has n [] = false
has n (m ∷ ms) = eqb m n || has n ms

has-append : (n : ℕ) (xs ys : List ℕ) → has n (xs ++ ys) ≡ (has n xs || has n ys)
has-append n [] ys = refl
has-append n (x ∷ xs) ys = ground (arith, has-append n xs ys)

kinds :
    (k : Kind)
    → (is_ready (or_unknown k) ≡ is_ready k)
      × (is_stopped (or_unknown k) ≡ is_stopped k)
      × ((is_ready k && is_stopped k) ≡ false)
kinds Kind.unset = (refl, refl, refl)
kinds Kind.unknown = (refl, refl, refl)
kinds Kind.starting = (refl, refl, refl)
kinds Kind.ready = (refl, refl, refl)
kinds Kind.disconnected = (refl, refl, refl)
kinds Kind.stopped = (refl, refl, refl)

module _ {W : Type 0} where
  unfoldable pub move : Move → Board W → Board W
  unfolding publish wait_round
  move (report now s) b = publish now s b
  move (ask now) b = (wait_round now b).1

  unfoldable pub moves : List Move → Board W → Board W
  unfolding move
  moves [] b = b
  moves (m ∷ ms) b = moves ms (move m b)

  -- A channel that is waited for or closed stays so, and a closed one stays closed.
  move-known :
      (ch : ℕ) (m : Move) (b : Board W)
      → (has ch b.closed || has ch b.waiters) ≡ true
      → (has ch (move m b).closed || has ch (move m b).waiters) ≡ true
  unfolding move publish wait_round wait_change
  move-known ch (report now s) b h = ground (arith, h, has-append ch b.closed b.waiters)
  move-known ch (ask now) b h = ground (
    arith,
    h,
    has-append ch b.closed (b.next_channel ∷ []),
    has-append ch b.waiters (b.next_channel ∷ []),
  )

  move-closed :
      (ch : ℕ) (m : Move) (b : Board W) → has ch b.closed ≡ true → has ch (move m b).closed ≡ true
  unfolding move publish wait_round wait_change
  move-closed ch (report now s) b h = ground (arith, h, has-append ch b.closed b.waiters)
  move-closed ch (ask now) b h = ground (arith, h, has-append ch b.closed (b.next_channel ∷ []))

  moves-known :
      (ch : ℕ) (ms : List Move) (b : Board W)
      → (has ch b.closed || has ch b.waiters) ≡ true
      → (has ch (moves ms b).closed || has ch (moves ms b).waiters) ≡ true
  unfolding moves
  moves-known ch [] b h = h
  moves-known ch (m ∷ ms) b h = moves-known ch ms (move m b) (move-known ch m b h)

  moves-closed :
      (ch : ℕ) (ms : List Move) (b : Board W)
      → has ch b.closed ≡ true
      → has ch (moves ms b).closed ≡ true
  unfolding moves
  moves-closed ch [] b h = h
  moves-closed ch (m ∷ ms) b h = moves-closed ch ms (move m b) (move-closed ch m b h)

  report-closed :
      (ch now : ℕ) (s : AdapterState) (b : Board W)
      → (has ch b.closed || has ch b.waiters) ≡ true
      → has ch (move (report now s) b).closed ≡ true
  unfolding move publish
  report-closed ch now s b h = ground (arith, h, has-append ch b.closed b.waiters)

  moves-append : (ms ls : List Move) (b : Board W) → moves (ms ++ ls) b ≡ moves ls (moves ms b)
  unfolding moves
  moves-append [] ls b = refl
  moves-append (m ∷ ms) ls b = moves-append ms ls (move m b)

  blocked-known :
      (ch now : ℕ) (b : Board W)
      → (wait_round now b).0 ≡ blocked ch
      → (has ch (wait_round now b).1.closed || has ch (wait_round now b).1.waiters) ≡ true
  unfolding wait_round wait_change
  blocked-known ch now b e = ground (
    arith,
    e,
    has-append ch b.closed (b.next_channel ∷ []),
    has-append ch b.waiters (b.next_channel ∷ []),
  )

  -- A round of WaitActionReady that blocks is woken by the next report of the adapter, whatever happens
  -- before it, between the look at the state and the report, and after it: no wake-up is lost.
  pub moves-wakes :
      (ch now later : ℕ) (s : AdapterState) (ms ls : List Move) (b : Board W)
      → (wait_round now b).0 ≡ blocked ch
      → has ch (moves (ms ++ report later s ∷ ls) (wait_round now b).1).closed ≡ true
  unfolding moves
  moves-wakes ch now later s ms ls b e =
      let b' = (wait_round now b).1 in
      rw (moves-append ms (report later s ∷ ls) b') (
        moves-closed ch ls (move (report later s) (moves ms b')) (
          report-closed ch later s (moves ms b') (moves-known ch ms b' (blocked-known ch now b e))))

  -- WaitActionReady reports success exactly if the kept state is a ready one with its
  -- actions ready, and gives up exactly if that state is stopped.
  wait_round-decides :
      (now : ℕ) (b : Board W)
      → (((wait_round now b).0 ≡ granted)
          ↔ ((is_ready b.state.kind && b.state.action_ready) ≡ true))
        × (((wait_round now b).0 ≡ refused) ↔ (is_stopped b.state.kind ≡ true))
  unfolding wait_round wait_change adapter_state normalize
  wait_round-decides now b = ground (arith, kinds b.state.kind)
