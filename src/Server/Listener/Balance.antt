-- ===== src/Server/Listener/Balance.antt =====
-- What the set-up of the listener opens and closes.
use file_transfer_over_udp.Prelude.{
  ℕ, ◌+◌, ◌≡◌, refl, Bool, true, false, not, ◌&&◌, Option, none, some, List, [], ◌∷◌, ◌==◌,
  if◌then◌else◌, arith,
}
use file_transfer_over_udp.Inet.{Address}
use file_transfer_over_udp.Server.Listener.{
  Call, opened, closed, list_taken, list_freed, control_taken, Candidate, Translation, translated,
  untranslated, Listener, call, setsockopt_err, fail, fail2, bound, bind_first,
  tftp_server_listener_init,
}

-- How often descriptor `n` has been opened, and closed.
abbrev pub opens : ℕ → List Call → ℕ
opens n [] = 0
opens n (opened fd ∷ rest) = (if fd == n then 1 else 0) + opens n rest
opens n (_ ∷ rest) = opens n rest

abbrev pub closes : ℕ → List Call → ℕ
closes n [] = 0
closes n (closed fd ∷ rest) = (if fd == n then 1 else 0) + closes n rest
closes n (_ ∷ rest) = closes n rest

-- How often a list of addresses was taken, and freed.
abbrev pub takes : List Call → ℕ
takes [] = 0
takes (list_taken ∷ rest) = 1 + takes rest
takes (_ ∷ rest) = takes rest

abbrev pub frees : List Call → ℕ
frees [] = 0
frees (list_freed ∷ rest) = 1 + frees rest
frees (_ ∷ rest) = frees rest

abbrev pub is_this : ℕ → Option ℕ → ℕ
is_this n none = 0
is_this n (some fd) = if fd == n then 1 else 0

-- 1 if the listener that was set up has descriptor `n`.
abbrev pub held : ℕ → Bool × Listener → ℕ
held n r = if r.0 then is_this n r.1.file_descriptor else 0

-- The socket of an address was closed because `bind` has refused it.
abbrev pub is_refused : Bool → Candidate → Bool
is_refused is_host_ipv6 a = not (setsockopt_err is_host_ipv6 a) && a.has_string && not a.is_bound

-- 1 if every address was refused, the last one with descriptor `n`; `last` is the descriptor before them.
abbrev pub closed_again : Bool → ℕ → Option ℕ → List Candidate → ℕ
closed_again is_host_ipv6 n last [] = is_this n last
closed_again is_host_ipv6 n last (a ∷ rest) = elim a.socket [
  | none ↦ 0
  | some fd ↦
      let later = closed_again is_host_ipv6 n (some fd) rest in
      if is_refused is_host_ipv6 a then later else 0
]

record IsBalanced (n again : ℕ) (r : Bool × Listener) : Type 0 where
  balance : opens n r.1.calls + again ≡ closes n r.1.calls + held n r
  list : takes r.1.calls ≡ frees r.1.calls

-- In the loop each descriptor that was opened is closed again, and the list is still there.
record IsTrying (n : ℕ) (l : Listener) : Type 0 where
  balance : opens n l.calls ≡ closes n l.calls
  list : takes l.calls ≡ frees l.calls + 1

IsBalanced-if :
    {x y z : Bool × Listener} (n again : ℕ) (e s b : Bool)
    → IsBalanced n 0 x
    → IsBalanced n 0 y
    → IsBalanced n again z
    → IsBalanced n
        (if not e && s && not b then again else 0)
        (if e then x else if not s then x else if b then y else z)
IsBalanced-if n again true s b h k l = h
IsBalanced-if n again false false b h k l = h
IsBalanced-if n again false true true h k l = k
IsBalanced-if n again false true false h k l = l

fail-IsBalanced : (n : ℕ) (l : Listener) → IsTrying n l → IsBalanced n 0 (fail l)
unfolding fail call
fail-IsBalanced n l e = record { balance = omega (arith, e.balance); list = omega (arith, e.list) }

-- After the loop the last descriptor is closed once more.
fail2-IsBalanced :
    (n fd : ℕ) (l : Listener) → IsTrying n l → IsBalanced n (is_this n (some fd)) (fail2 fd l)
unfolding fail2 fail call
fail2-IsBalanced n fd l e = record {
  balance = omega (arith, e.balance);
  list = omega (arith, e.list);
}

-- A descriptor that has just been opened and is closed, and one that is held.
fail2-opened-IsBalanced :
    (n fd : ℕ) (l : Listener)
    → IsTrying n l
    → IsBalanced n 0 (fail2 fd (call (opened fd) (record l { file_descriptor = some fd })))
unfolding fail2 fail call
fail2-opened-IsBalanced n fd l e = record {
  balance = omega (arith, e.balance);
  list = omega (arith, e.list);
}

bound-IsBalanced :
    (n fd : ℕ) (l : Listener) (a : Address)
    → IsTrying n l
    → IsBalanced n 0 (bound a (call (opened fd) (record l { file_descriptor = some fd })))
unfolding bound call
bound-IsBalanced n fd l a e = record {
  balance = omega (arith, e.balance);
  list = omega (arith, e.list);
}

bind_first-IsBalanced :
    (is_host_ipv6 : Bool) (n : ℕ) (addresses : List Candidate) (l : Listener)
    → IsTrying n l
    → IsBalanced n
        (closed_again is_host_ipv6 n l.file_descriptor addresses)
        (bind_first is_host_ipv6 addresses l)
unfolding bind_first call
bind_first-IsBalanced is_host_ipv6 n [] l e = go l.file_descriptor
  where
    go :
        (d : Option ℕ)
        → IsBalanced n (is_this n d) (elim d [ none ↦ fail l | some fd ↦ fail2 fd l ])
    go none = fail-IsBalanced n l e
    go (some fd) = fail2-IsBalanced n fd l e
bind_first-IsBalanced is_host_ipv6 n (a ∷ rest) l e =
    go (λ m t. bind_first-IsBalanced is_host_ipv6 n rest m t) a.socket
  where
    taken : ℕ → Listener
    taken fd = call (opened fd) (record l { file_descriptor = some fd })

    next : ℕ → Bool × Listener
    next fd = bind_first is_host_ipv6 rest (call (closed fd) (taken fd))

    go :
        ((m : Listener)
          → IsTrying n m
          → IsBalanced n
              (closed_again is_host_ipv6 n m.file_descriptor rest)
              (bind_first is_host_ipv6 rest m))
        → (d : Option ℕ)
        → IsBalanced n
            (elim d [
              | none ↦ 0
              | some fd ↦
                  let later = closed_again is_host_ipv6 n (some fd) rest in
                  if is_refused is_host_ipv6 a then later else 0
            ])
            (elim d [
              | none ↦ fail (record l { file_descriptor = none })
              | some fd ↦
                  if setsockopt_err is_host_ipv6 a
                  then fail2 fd (taken fd)
                  else if not a.has_string
                  then fail2 fd (taken fd)
                  else if a.is_bound
                  then bound a.address (taken fd)
                  else next fd
            ])
    go later none =
        fail-IsBalanced n (record l { file_descriptor = none })
          (record { balance = e.balance; list = e.list })
    go later (some fd) =
        IsBalanced-if n (closed_again is_host_ipv6 n (some fd) rest) (setsockopt_err is_host_ipv6 a)
          a.has_string a.is_bound (fail2-opened-IsBalanced n fd l e)
          (bound-IsBalanced n fd l a.address e)
          (later (call (closed fd) (taken fd))
            (record { balance = omega (arith, e.balance); list = omega (arith, e.list) }))

-- 1 if the set-up closes descriptor `n` once more than it was opened.
abbrev pub closed_twice : Bool → Bool → ℕ → Translation → ℕ
closed_twice allocated is_host_ipv6 n (untranslated has_list) = 0
closed_twice allocated is_host_ipv6 n (translated addresses) =
    if allocated then closed_again is_host_ipv6 n none addresses else 0

tftp_server_listener_init-IsBalanced :
    (n : ℕ) (allocated is_host_ipv6 : Bool) (getaddrinfo : Bool → Translation)
    → IsBalanced n
        (closed_twice allocated is_host_ipv6 n (getaddrinfo is_host_ipv6))
        (tftp_server_listener_init allocated is_host_ipv6 getaddrinfo)
unfolding tftp_server_listener_init call
tftp_server_listener_init-IsBalanced n false is_host_ipv6 getaddrinfo =
    go (getaddrinfo is_host_ipv6)
  where
    empty : Listener
    empty = record { file_descriptor = none; has_control = false; addr_storage = none; calls = [] }

    go : (t : Translation) → IsBalanced n (closed_twice false is_host_ipv6 n t) (false, empty)
    go (translated addresses) = record { balance = refl; list = refl }
    go (untranslated has_list) = record { balance = refl; list = refl }
tftp_server_listener_init-IsBalanced n true is_host_ipv6 getaddrinfo = go (getaddrinfo is_host_ipv6)
  where
    start : Listener
    start = record {
      file_descriptor = none;
      has_control = true;
      addr_storage = none;
      calls = control_taken ∷ [];
    }

    go :
        (t : Translation)
        → IsBalanced n (closed_twice true is_host_ipv6 n t) (elim t [
          | untranslated has_list ↦
              (false, if has_list then call list_freed (call list_taken start) else start)
          | translated addresses ↦ bind_first is_host_ipv6 addresses (call list_taken start)
        ])
    go (translated addresses) =
        bind_first-IsBalanced is_host_ipv6 n addresses (call list_taken start)
          (record { balance = refl; list = refl })
    go (untranslated true) = record { balance = refl; list = refl }
    go (untranslated false) = record { balance = refl; list = refl }

-- Whatever the system answers: the set-up of the listener has opened each descriptor as often as closed it,
-- but for the one that a listener that was set up holds, opened once more, and for the last one when every
-- address was refused by `bind`, closed once more; and it frees each list of addresses that it gets.
pub tftp_server_listener_init-calls :
    (n : ℕ) (allocated is_host_ipv6 : Bool) (getaddrinfo : Bool → Translation)
    → let r = tftp_server_listener_init allocated is_host_ipv6 getaddrinfo in
      (opens n r.1.calls + closed_twice allocated is_host_ipv6 n (getaddrinfo is_host_ipv6)
        ≡ closes n r.1.calls + held n r)
      × (takes r.1.calls ≡ frees r.1.calls)
tftp_server_listener_init-calls n allocated is_host_ipv6 getaddrinfo =
    let w = tftp_server_listener_init-IsBalanced n allocated is_host_ipv6 getaddrinfo in
    (w.balance, w.list)
