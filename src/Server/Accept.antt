-- ===== src/Server/Accept.antt =====
-- `create_tcp_server`, and a round of `file_server_thread` in src/file_server.c. The results of the system calls are
-- inputs; the open descriptors of the thread are kept beside its variables, to say which ones it loses.
use vpu.Common.{
  ◌≤◌, Bool-cases, inl, inr, ==→eq, ℕ, ◌+◌, ◌<◌, ◌≡◌, refl, Bool, true, false, Option, none, some,
  List, [], ◌∷◌, leb, ◌==◌, if◌then◌else◌, arith, ap, ◌∙◌, if_keeps,
}
use vpu.Conf.{Str}

-- What `socket`, `bind` and `listen` return.
pub record Listening : Type 0 where
  pub socket : Option ℕ
  pub bound : Bool
  pub listening : Bool

-- the address and the port that `bind` is given, SERVER_PORT for 0
abbrev pub bind_port : ℕ → ℕ
bind_port port = if port == 0 then 8080 else port

-- close(2): the first of the descriptor among those that are open
unfoldable pub close : ℕ → List ℕ → List ℕ
close fd [] = []
close fd (x ∷ fds) = let rest = close fd fds in if x == fd then fds else x ∷ rest

-- The result, and the open descriptors behind the call: a socket that is not bound, or does not listen, is closed again.
unfoldable pub create_tcp_server : Listening → List ℕ → Option ℕ × List ℕ
create_tcp_server l fds = elim (l.socket) [
  | none ↦ (none, fds)
  | some fd ↦
      if l.bound
      then (if l.listening then (some fd, fd ∷ fds) else (none, close fd (fd ∷ fds)))
      else (none, close fd (fd ∷ fds))
]

-- What a round gets: whether SVM_DONE is set, the results of the calls, whether select fails, whether a client waits,
-- what accept returns, and whether the thread for the client can be made.
pub record Calls : Type 0 where
  pub done : Bool
  pub listening : Listening
  pub select_failed : Bool
  pub client_waits : Bool
  pub accepted : Option ℕ
  pub thread_made : Bool

-- The variables of the thread with `svm_vpu_reload`, the address that the socket listens at, and the descriptors
-- that are open and no other thread's. For the theorems also the clients for which no thread could be made, and
-- those that a thread has got.
pub record Listener : Type 0 where
  pub listenfd : Option ℕ
  pub conn_times : ℕ
  pub svm_vpu_reload : ℕ
  pub address : Option (Str × ℕ)
  pub open_fds : List ℕ
  pub lost_clients : List ℕ
  pub served : List ℕ

-- `close(listenfd)`; of -1 it does nothing
abbrev pub close_opt : Option ℕ → List ℕ → List ℕ
close_opt none fds = fds
close_opt (some fd) fds = close fd fds

abbrev pub close_listener : Listener → Listener
close_listener s = record s {
  listenfd = none;
  address = none;
  open_fds = close_opt s.listenfd s.open_fds;
}

-- the branch for a reload
unfoldable pub reload_listener : Listener → Listener
reload_listener s =
    if s.svm_vpu_reload == 1 then record (close_listener s) { svm_vpu_reload = 0 } else s

-- what follows `create_tcp_server`
unfoldable pub created : Str → ℕ → Listener → Option ℕ × List ℕ → Listener
created ip port s (none, fds) = record s {
  conn_times = if leb 60 (s.conn_times + 1) then 0 else s.conn_times + 1;
  open_fds = fds;
}
created ip port s (some fd, fds) = record s {
  listenfd = some fd;
  address = some (ip, bind_port port);
  open_fds = fds;
}

-- `create_tcp_server`, if there is no socket; with the address in force now
unfoldable pub ensure_listener : Str → ℕ → Listening → Listener → Listener
ensure_listener ip port l s = elim (s.listenfd) [
  | some fd ↦ s
  | none ↦ created ip port s (create_tcp_server l s.open_fds)
]

-- a client that has been accepted: its thread closes it, if there is one
unfoldable pub take_client : Bool → ℕ → Listener → Listener
take_client made fd s =
    if made
    then record s { served = fd ∷ s.served }
    else record s { open_fds = fd ∷ s.open_fds; lost_clients = fd ∷ s.lost_clients }

-- select, and accept with the thread for the client
unfoldable pub accept_client : Calls → Listener → Listener
accept_client c s =
    if c.select_failed
    then s
    else if c.client_waits
    then elim (c.accepted) [ none ↦ s | some fd ↦ take_client c.thread_made fd s ]
    else s

-- the rest of the round, for a thread that may have no socket
unfoldable pub wait_client : Calls → Listener → Listener
wait_client c s = elim (s.listenfd) [ none ↦ s | some fd ↦ accept_client c s ]

-- A round: whether the thread leaves its loop, and its state.
unfoldable pub server_round : Str → ℕ → Calls → Listener → Bool × Listener
server_round ip port c s =
    if c.done
    then (true, close_listener s)
    else (false, wait_client c (ensure_listener ip port c.listening (reload_listener s)))

unfoldable pub start_listener : ℕ → Listener
start_listener reload = record {
  listenfd = none;
  conn_times = 0;
  svm_vpu_reload = reload;
  address = none;
  open_fds = [];
  lost_clients = [];
  served = [];
}

-- how often a descriptor stands in a list
abbrev pub times : ℕ → List ℕ → ℕ
times a [] = 0
times a (x ∷ xs) = let rest = times a xs in if a == x then rest + 1 else rest

abbrev pub listening_on : Option ℕ → List ℕ
listening_on none = []
listening_on (some fd) = fd ∷ []

-- What is open is the socket that the thread listens on, and the clients that are lost.
pub record HasSocket (s : Listener) : Type 0 where
  pub held :
      (a : ℕ) → times a s.open_fds ≡ times a (listening_on s.listenfd) + times a s.lost_clients
  pub retries : s.conn_times < 60

times-close :
    (a fd : ℕ) (fds : List ℕ)
    → 1 ≤ times fd fds
    → times a fds ≡ times a (close fd fds) + times a (fd ∷ [])
unfolding close
times-close a fd [] here = absurd (omega arith)
times-close a fd (x ∷ fds) here = elim (Bool-cases (x == fd)) [
  | inl same ↦ let e : x ≡ fd = ==→eq _ _ same in rw (same, e) (ground arith)
  | inr other ↦
      let not_x : (fd == x) ≡ false = ground arith in
      let behind : 1 ≤ times fd fds = ground arith in ground (arith, times-close a fd fds behind)
]

close_listener-HasSocket : (s : Listener) → HasSocket s → HasSocket (close_listener s)
close_listener-HasSocket s h = record { held = closed s.listenfd h.held; retries = h.retries }
  where
    closed :
        (o : Option ℕ)
        → ((a : ℕ) → times a s.open_fds ≡ times a (listening_on o) + times a s.lost_clients)
        → (a : ℕ) → times a (close_opt o s.open_fds) ≡ 0 + times a s.lost_clients
    closed none held a = held a
    closed (some fd) held a =
        let here : 1 ≤ times fd s.open_fds = ground (arith, held fd) in
        omega (arith, times-close a fd s.open_fds here, held a)

reload_listener-HasSocket : (s : Listener) → HasSocket s → HasSocket (reload_listener s)
unfolding reload_listener
reload_listener-HasSocket s h =
    let c = close_listener-HasSocket s h in
    if_keeps HasSocket (s.svm_vpu_reload == 1) (record { held = c.held; retries = c.retries }) h

take_client-HasSocket :
    (made : Bool) (fd : ℕ) (s : Listener) → HasSocket s → HasSocket (take_client made fd s)
unfolding take_client
take_client-HasSocket made fd s h =
    if_keeps HasSocket made (record { held = h.held; retries = h.retries })
      (record { held = λ a. ground (arith, h.held a); retries = h.retries })

accept_client-HasSocket : (c : Calls) (s : Listener) → HasSocket s → HasSocket (accept_client c s)
unfolding accept_client
accept_client-HasSocket c s h =
    if_keeps HasSocket c.select_failed h (if_keeps HasSocket c.client_waits (taken c.accepted) h)
  where
    taken :
        (o : Option ℕ) → HasSocket (elim o [ none ↦ s | some fd ↦ take_client c.thread_made fd s ])
    taken none = h
    taken (some fd) = take_client-HasSocket c.thread_made fd s h

-- What `create_tcp_server` does to what is open.
Makes : List ℕ → Option ℕ × List ℕ → Type 0
Makes fds (o, fds') = (a : ℕ) → times a fds' ≡ times a (listening_on o) + times a fds

-- a socket that has just been made is closed again
closed_again : (fd : ℕ) (fds : List ℕ) → Makes fds (none, close fd (fd ∷ fds))
unfolding close Makes
closed_again fd fds = λ a. ground arith

create_tcp_server-Makes : (l : Listening) (fds : List ℕ) → Makes fds (create_tcp_server l fds)
unfolding create_tcp_server Makes
create_tcp_server-Makes l fds = made l.socket
  where
    made :
        (o : Option ℕ)
        → Makes fds (elim o [
          | none ↦ (none, fds)
          | some fd ↦
              if l.bound
              then (if l.listening then (some fd, fd ∷ fds) else (none, close fd (fd ∷ fds)))
              else (none, close fd (fd ∷ fds))
        ])
    made none = λ a. omega arith
    made (some fd) =
        if_keeps (Makes fds) l.bound
          (if_keeps (Makes fds) l.listening (λ a. ground arith) (closed_again fd fds))
          (closed_again fd fds)

created-HasSocket :
    (ip : Str) (port : ℕ) (s : Listener) (r : Option ℕ × List ℕ)
    → HasSocket s
    → s.listenfd ≡ none
    → Makes s.open_fds r
    → HasSocket (created ip port s r)
unfolding created Makes
created-HasSocket ip port s (none, fds) h down made = record {
  held = λ a. omega (arith, made a, h.held a);
  retries = ground (arith, h.retries);
}
created-HasSocket ip port s (some fd, fds) h down made =
    let none_yet : (a : ℕ) → times a s.open_fds ≡ 0 + times a s.lost_clients =
      λ a. h.held a ∙ ap (λ o. times a (listening_on o) + times a s.lost_clients) down in
    record { held = λ a. omega (arith, made a, none_yet a); retries = h.retries }

ensure_listener-HasSocket :
    (ip : Str) (port : ℕ) (l : Listening) (s : Listener)
    → HasSocket s
    → HasSocket (ensure_listener ip port l s)
unfolding ensure_listener
ensure_listener-HasSocket ip port l s h = at_socket s.listenfd refl
  where
    at_socket :
        (o : Option ℕ)
        → s.listenfd ≡ o
        → HasSocket
            (elim o [ some fd ↦ s | none ↦ created ip port s (create_tcp_server l s.open_fds) ])
    at_socket (some fd) e = h
    at_socket none e =
        created-HasSocket ip port s (create_tcp_server l s.open_fds) h e
          (create_tcp_server-Makes l s.open_fds)

wait_client-HasSocket : (c : Calls) (s : Listener) → HasSocket s → HasSocket (wait_client c s)
unfolding wait_client
wait_client-HasSocket c s h = at_socket s.listenfd
  where
    at_socket : (o : Option ℕ) → HasSocket (elim o [ none ↦ s | some fd ↦ accept_client c s ])
    at_socket none = h
    at_socket (some fd) = accept_client-HasSocket c s h

pub server_round-HasSocket :
    (ip : Str) (port : ℕ) (c : Calls) (s : Listener)
    → HasSocket s
    → HasSocket (server_round ip port c s).1
unfolding server_round
server_round-HasSocket ip port c s h =
    if_keeps (λ (r : Bool × Listener). HasSocket r.1) c.done (close_listener-HasSocket s h)
      (wait_client-HasSocket c (ensure_listener ip port c.listening (reload_listener s)) (
        ensure_listener-HasSocket ip port c.listening (reload_listener s)
          (reload_listener-HasSocket s h)))

-- the socket that system calls make which all succeed
abbrev pub made_socket : Listening → Option ℕ
made_socket l = if l.bound then (if l.listening then l.socket else none) else none

abbrev pub made_address : Str → ℕ → Option ℕ → Option (Str × ℕ)
made_address ip port none = none
made_address ip port (some fd) = some (ip, bind_port port)
