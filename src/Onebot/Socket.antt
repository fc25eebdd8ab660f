-- ===== src/Onebot/Socket.antt =====
-- adapters/onebot11/socket.go: the calls of actions that share one web socket. A call takes the next
-- number as its echo, waits on a channel of its own that the table of pending calls names, and is
-- answered by the frame with its echo, by the loss of the connection or by its context. The steps are
-- the critical sections of the code, in any order. An echo `anybot-n` is named by n; the counter has
-- no bound where the code has 64 bits.
pub mod Answers
use anybot.Base.{
  ℕ, zero, suc, ◌+◌, ◌-◌, ◌≤◌, ◌<◌, ◌≡◌, refl, sym, ap, ◌∙◌, subst, ◌≢◌, ◌↔◌, ◌⊎◌, inl, inr, Bool,
  true, false, not, ◌&&◌, ◌||◌, Option, none, some, List, [], ◌∷◌, ◌++◌, map, arith, Bool-cases,
  Option-cases, Text, codes, if◌then◌else◌, is_some, eqb,
}

-- What is sent on a channel, and what a call returns: the response with its echo, or an error.
pub data PendingResult : Type 0 where
  response : ℕ → Text → PendingResult
  failed : Text → PendingResult

-- Where a call is: its echo is not given yet, it is in the table, its request is written, or it
-- has returned.
pub data Phase : Type 0 where
  unused writing waiting : Phase
  returned : PendingResult → Phase

-- socketPeer, with the phases and the channels of its calls.
pub record SocketPeer : Type 0 where
  pub next_echo : ℕ
  pub conn : Option ℕ
  pub pending : ℕ → Bool
  pub channels : ℕ → Option PendingResult
  pub phases : ℕ → Phase

abbrev pub new_socket_peer : SocketPeer
new_socket_peer = record {
  next_echo = 0;
  conn = none;
  pending = λ _. false;
  channels = λ _. none;
  phases = λ _. unused;
}

abbrev pub update {ℓ} : {A : Type ℓ} → ℕ → A → (ℕ → A) → ℕ → A
update n a f m = if eqb m n then a else f m

-- The first lines of callRaw.
abbrev pub register : SocketPeer → SocketPeer
register p = record p {
  next_echo = suc p.next_echo;
  pending = update (suc p.next_echo) true p.pending;
  phases = update (suc p.next_echo) writing p.phases;
}

abbrev pub set_phase : ℕ → Phase → SocketPeer → SocketPeer
set_phase n phase p = record p { phases = update n phase p.phases }

abbrev pub remove_pending : ℕ → SocketPeer → SocketPeer
remove_pending n p = record p { pending = update n false p.pending }

abbrev pub complete_pending : ℕ → PendingResult → SocketPeer → SocketPeer
complete_pending n result p =
    if p.pending n
    then record p {
      pending = update n false p.pending;
      channels = update n (some result) p.channels;
    }
    else p

abbrev pub fail_pending : Text → SocketPeer → SocketPeer
fail_pending e p = record p {
  pending = λ _. false;
  channels = λ n. if p.pending n then some (failed e) else p.channels n;
}

abbrev same_conn : Option ℕ → Option ℕ → Bool
same_conn none none = true
same_conn (some a) (some b) = eqb a b
same_conn _ _ = false

-- replaceConn
abbrev pub replace_conn : Option ℕ → SocketPeer → SocketPeer
replace_conn conn p =
    if is_some p.conn && not (same_conn p.conn conn)
    then fail_pending (codes "onebot11: websocket connection replaced") (record p { conn = conn })
    else record p { conn = conn }

-- disconnectConn
abbrev pub disconnect_conn : Option ℕ → Text → SocketPeer → Bool × SocketPeer
disconnect_conn conn e p =
    if same_conn p.conn conn then (true, fail_pending e (record p { conn = none })) else (false, p)

-- A call that returns an error leaves the table first.
abbrev pub give_up : ℕ → Text → SocketPeer → SocketPeer
give_up n e p = set_phase n (returned (failed e)) (remove_pending n p)

-- One step of a call, of the reader of frames, or of the connection.
pub data Step : SocketPeer → SocketPeer → Type 0 where
  call : {p : SocketPeer} → Step p (register p)
  -- the request is not encoded, there is no connection, or it is not written
  refuse : {p : SocketPeer} (n : ℕ) (e : Text) → p.phases n ≡ writing → Step p (give_up n e p)
  wrote : {p : SocketPeer} (n : ℕ) → p.phases n ≡ writing → Step p (set_phase n waiting p)
  receive :
      {p : SocketPeer} (n : ℕ) (r : PendingResult)
      → p.phases n ≡ waiting
      → p.channels n ≡ some r
      → Step p (set_phase n (returned r) p)
  -- the call's context is done
  cancel : {p : SocketPeer} (n : ℕ) (e : Text) → p.phases n ≡ waiting → Step p (give_up n e p)
  -- handleFrame of a response with this echo
  frame : {p : SocketPeer} (n : ℕ) (body : Text) → Step p (complete_pending n (response n body) p)
  replace : {p : SocketPeer} (conn : Option ℕ) → Step p (replace_conn conn p)
  disconnect : {p : SocketPeer} (conn : Option ℕ) (e : Text) → Step p (disconnect_conn conn e p).1

pub data Reachable : SocketPeer → Type 0 where
  start : Reachable new_socket_peer
  next : {p q : SocketPeer} → Reachable p → Step p q → Reachable q
