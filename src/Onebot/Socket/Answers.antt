-- ===== src/Onebot/Socket/Answers.antt =====
-- Every call of an action is answered at most once, by its own response, and is never forgotten.
use anybot.Base.{
  ℕ, suc, ◌<◌, ◌≡◌, refl, sym, ◌∙◌, subst, ◌⊎◌, inl, inr, Bool, true, false, not, ◌&&◌, Option,
  none, some, arith, Bool-cases, Text, codes, if◌then◌else◌, eqb, eqb_iff, is_some,
}
use anybot.Onebot.Socket.{
  PendingResult, response, failed, Phase, unused, writing, waiting, returned, SocketPeer, update,
  register, set_phase, complete_pending, fail_pending, replace_conn, disconnect_conn, give_up, Step,
  call, refuse, wrote, receive, cancel, frame, replace, disconnect, Reachable, start, next,
  same_conn,
}

-- A result that the call with this echo may get: not the response to another one.
abbrev pub IsOwn : ℕ → PendingResult → Type 0
IsOwn n (response m _) = n ≡ m
IsOwn n (failed _) = Unit

-- A call in one of the phases: while it runs, it is either in the table with nothing sent to it, or
-- out of the table with one result of its own on its channel. Once it has returned it is out of the
-- table.
abbrev pub CallIsFine : ℕ → Phase → Bool → Option PendingResult → Type 0
CallIsFine n unused pending channel = (pending ≡ false) × (channel ≡ none)
CallIsFine n (returned r) pending channel = (pending ≡ false) × IsOwn n r
CallIsFine n _ pending channel =
    ((pending ≡ true) × (channel ≡ none))
    ⊎ ((pending ≡ false) × (r : PendingResult) × (channel ≡ some r) × IsOwn n r)

abbrev IsFresh : ℕ → SocketPeer → Type 0
IsFresh n p = p.next_echo < n → p.phases n ≡ unused

abbrev IsFine : SocketPeer → Type 0
IsFine p = (n : ℕ) → CallIsFine n (p.phases n) (p.pending n) (p.channels n) × IsFresh n p

fine_failed :
    (n : ℕ) (phase : Phase) (pending : Bool) (channel : Option PendingResult) (e : Text)
    → CallIsFine n phase pending channel
    → CallIsFine n phase false (if pending then some (failed e) else channel)
fine_failed n unused true channel e (h, h') = absurd (ground (arith, h))
fine_failed n unused false channel e (h, h') = (refl, h')
fine_failed n (returned r) pending channel e (h, h') = (refl, h')
fine_failed n writing true channel e h = inr (refl, failed e, refl, tt)
fine_failed n writing false channel e h = h
fine_failed n waiting true channel e h = inr (refl, failed e, refl, tt)
fine_failed n waiting false channel e h = h

fine_completed :
    (n : ℕ) (phase : Phase) (channel : Option PendingResult) (r : PendingResult)
    → CallIsFine n phase true channel
    → IsOwn n r
    → CallIsFine n phase false (some r)
fine_completed n unused channel r (h, _) own = absurd (ground (arith, h))
fine_completed n (returned _) channel r (h, _) own = absurd (ground (arith, h))
fine_completed n writing channel r h own = inr (refl, r, refl, own)
fine_completed n waiting channel r h own = inr (refl, r, refl, own)

-- A result on the channel of a waiting call is its own, and the call is out of the table.
fine_received :
    (n : ℕ) (pending : Bool) (channel : Option PendingResult) (r : PendingResult)
    → channel ≡ some r
    → CallIsFine n waiting pending channel
    → (pending ≡ false) × IsOwn n r
fine_received n pending channel r e (inl (_, h)) = absurd (ground (arith, e, h))
fine_received n pending channel r e (inr (h, r', f, own)) =
    let same : r' ≡ r = ground (arith, e, f) in (h, subst (IsOwn n) same own)

eqb_refl : (n : ℕ) → eqb n n ≡ true
eqb_refl n = ground arith

module _ (p : SocketPeer) (h : IsFine p) where
  -- A step that changes what belongs to the call n, where that is not a call to come.
  IsFine-at :
      (n : ℕ) (q : SocketPeer)
      → p.next_echo ≡ q.next_echo
      → (p.phases n ≡ unused → q.phases n ≡ unused)
      → CallIsFine n (q.phases n) (q.pending n) (q.channels n)
      → ((m : ℕ)
          → eqb m n ≡ false
          → (q.phases m ≡ p.phases m) × (q.pending m ≡ p.pending m) × (q.channels m ≡ p.channels m))
      → IsFine q
  IsFine-at n q same fresh own others m = elim (Bool-cases (eqb m n)) [
    | inl t ↦
        let e : n ≡ m = sym ((eqb_iff m n).0 t) in
        subst (λ k. CallIsFine k (q.phases k) (q.pending k) (q.channels k) × IsFresh k q) e
          (own, λ lt. fresh ((h n).1 (subst (λ k. k < n) (sym same) lt)))
    | inr t ↦
        let (a, b, c) = others m t in
        (
          subst (λ x. CallIsFine m x (q.pending m) (q.channels m)) (sym a)
              (subst (λ x. CallIsFine m (p.phases m) x (q.channels m)) (sym b)
                (subst (λ x. CallIsFine m (p.phases m) (p.pending m) x) (sym c) (h m).0)),
          λ lt. a ∙ (h m).1 (subst (λ k. k < m) (sym same) lt),
        )
  ]

  give_up-IsFine : (n : ℕ) (e : Text) → (p.phases n ≡ unused → ⊥) → IsFine (give_up n e p)
  give_up-IsFine n e used =
      IsFine-at n (give_up n e p) refl (λ u. absurd (used u)) (rw (eqb_refl n) (refl, tt))
        (λ m t. ground (arith, t))

  set_phase-IsFine :
      (n : ℕ) (phase : Phase)
      → (p.phases n ≡ unused → ⊥)
      → CallIsFine n phase (p.pending n) (p.channels n)
      → IsFine (set_phase n phase p)
  set_phase-IsFine n phase used own =
      IsFine-at n (set_phase n phase p) refl (λ u. absurd (used u)) (rw (eqb_refl n) own)
        (λ m t. ground (arith, t))

  complete-IsFine : (n : ℕ) (r : PendingResult) → IsOwn n r → IsFine (complete_pending n r p)
  complete-IsFine n r own = elim (Bool-cases (p.pending n)) [
    | inr t ↦ rw t h
    | inl t ↦ rw t (
        IsFine-at n
          (record p { pending = update n false p.pending; channels = update n (some r) p.channels })
          refl (λ u. u)
          (rw (eqb_refl n) (
            fine_completed n (p.phases n) (p.channels n) r
              (subst (λ x. CallIsFine n (p.phases n) x (p.channels n)) t (h n).0) own))
          (λ m f. ground (arith, f)))
  ]

  fail-IsFine : (e : Text) → IsFine (fail_pending e p)
  fail-IsFine e n = (fine_failed n (p.phases n) (p.pending n) (p.channels n) e (h n).0, (h n).1)

  register-IsFine : IsFine (register p)
  register-IsFine n = elim (Bool-cases (eqb n (suc p.next_echo))) [
    | inl t ↦
        let e : n ≡ suc p.next_echo = (eqb_iff n (suc p.next_echo)).0 t in
        let old = (h n).1 (ground (arith, e)) in
        let free = subst (λ x. CallIsFine n x (p.pending n) (p.channels n)) old (h n).0 in
        rw t (inl (refl, free.1), λ lt. absurd (ground (arith, e, lt)))
    | inr t ↦ rw t ((h n).0, λ lt. (h n).1 (ground (arith, lt)))
  ]

replace-IsFine : (p : SocketPeer) (conn : Option ℕ) → IsFine p → IsFine (replace_conn conn p)
replace-IsFine p conn h = elim (Bool-cases (is_some p.conn && not (same_conn p.conn conn))) [
  | inl t ↦
      rw t
        (fail-IsFine (record p { conn = conn }) h (codes "onebot11: websocket connection replaced"))
  | inr t ↦ rw t h
]

disconnect-IsFine :
    (p : SocketPeer) (conn : Option ℕ) (e : Text) → IsFine p → IsFine (disconnect_conn conn e p).1
disconnect-IsFine p conn e h = elim (Bool-cases (same_conn p.conn conn)) [
  | inl t ↦ rw t (fail-IsFine (record p { conn = none }) h e)
  | inr t ↦ rw t h
]

used : (a b : Phase) → a ≡ b → (b ≡ unused → ⊥) → a ≡ unused → ⊥
used a b e n u = n (sym e ∙ u)

writing_used : writing ≡ unused → ⊥
writing_used e = absurd (ground (arith, e))

waiting_used : waiting ≡ unused → ⊥
waiting_used e = absurd (ground (arith, e))

step-IsFine : (p q : SocketPeer) → Step p q → IsFine p → IsFine q
step-IsFine p q call h = register-IsFine p h
step-IsFine p q (refuse n e at) h = give_up-IsFine p h n e (used _ _ at writing_used)
step-IsFine p q (wrote n at) h =
    set_phase-IsFine p h n waiting (used _ _ at writing_used)
      (subst (λ x. CallIsFine n x (p.pending n) (p.channels n)) at (h n).0)
step-IsFine p q (receive n r at sent) h =
    set_phase-IsFine p h n (returned r) (used _ _ at waiting_used) (
      fine_received n (p.pending n) (p.channels n) r sent
        (subst (λ x. CallIsFine n x (p.pending n) (p.channels n)) at (h n).0))
step-IsFine p q (cancel n e at) h = give_up-IsFine p h n e (used _ _ at waiting_used)
step-IsFine p q (frame n body) h = complete-IsFine p h n (response n body) refl
step-IsFine p q (replace conn) h = replace-IsFine p conn h
step-IsFine p q (disconnect conn e) h = disconnect-IsFine p conn e h

Reachable-IsFine : (p : SocketPeer) → Reachable p → IsFine p
Reachable-IsFine p start = λ n. ((refl, refl), λ _. refl)
Reachable-IsFine p (next r s) = step-IsFine _ p s (Reachable-IsFine _ r)

-- However calls, frames, cancellations and changes of the connection follow one another: a running
-- call is either in the table with an empty channel, so that a later frame or failure reaches it, or
-- out of the table with one result on its channel; a call that has returned is out of the table; and
-- no call gets the response to another one.
pub Reachable-CallIsFine :
    (p : SocketPeer) (n : ℕ) → Reachable p → CallIsFine n (p.phases n) (p.pending n) (p.channels n)
Reachable-CallIsFine p n r = (Reachable-IsFine p r n).0
