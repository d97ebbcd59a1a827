-- ===== src/Service/PortLoop/Messages.antt =====
-- service_c/rbport.c: the port thread loses no message, and leaves no connection open.
use recyclebin_svc.Base.{
  ℕ, ◌+◌, ◌-◌, ◌≤◌, Bool, true, false, Option, none, some, List, [], ◌∷◌, ◌≡◌, ◌⊎◌, inl, inr, refl,
  ap, ◌∙◌, WideString, leb, if◌then◌else◌, All, if-cases, arith,
}
use recyclebin_svc.Driver.State.{rbf_notify_max_size}
use recyclebin_svc.Service.Db.{Table}
use recyclebin_svc.Service.Port.{port_handle_message}
use recyclebin_svc.Service.PortLoop.{
  Read, arrived, aborted, broken, quiet, at_once, refused, Round, PortState, rbsvc_stats_interval,
  port_close, port_read, port_connecting, port_round, port_thread,
}

-- The thread has a port exactly while it takes itself for connected.
abbrev pub HasPort : Bool → Option ℕ → Type 0
HasPort true (some h) = Unit
HasPort true none = ⊥
HasPort false none = Unit
HasPort false (some h) = ⊥

abbrev pub IsPaired : PortState → Type 0
IsPaired s = HasPort s.connected s.port

-- A read that does not time out.
abbrev pub IsSettled : Read → Type 0
IsSettled (arrived note bytes) = Unit
IsSettled aborted = Unit
IsSettled broken = Unit
IsSettled quiet = ⊥
IsSettled (at_once note) = Unit
IsSettled refused = Unit

-- A round that connects, if it has to, whose read does not time out, and that no stop ends.
abbrev pub IsLive : Round → Type 0
IsLive r =
    (r.stop ≡ false) × (r.stop_later ≡ false) × IsSettled r.read × ((h : ℕ) × (r.connects ≡ some h))

module _ (sql_ok : Bool) (client : WideString → WideString) where
  -- What the reads of the rounds put into the table, one after the other.
  unfoldable pub store_read : Round → Read → Table → Table
  store_read r (arrived note bytes) t = port_handle_message sql_ok r.now client note (bytes - 16) t
  store_read r (at_once note) t = port_handle_message sql_ok r.now client note rbf_notify_max_size t
  store_read r aborted t = t
  store_read r broken t = t
  store_read r quiet t = t
  store_read r refused t = t

  unfoldable pub store_reads : List Round → Table → Table
  store_reads [] t = t
  store_reads (r ∷ rounds) t = store_reads rounds (store_read r r.read t)

  abbrev IsKept : Round → Read → PortState → Bool × PortState → Type 0
  IsKept r read s one =
      (one.0 ≡ true) × (one.1.table ≡ store_read r read s.table) × (one.1.stale ≤ s.stale)

  port_read-IsKept :
      (r : Round) (read : Read) (s : PortState)
      → r.stop_later ≡ false
      → IsSettled read
      → IsKept r read s (port_read sql_ok client r read s)
  unfolding port_read store_read
  port_read-IsKept r (arrived note bytes) s go there = (refl, refl, omega arith)
  port_read-IsKept r aborted s go there = (refl, refl, omega arith)
  port_read-IsKept r broken s go there = (rw go refl, refl, omega arith)
  port_read-IsKept r quiet s go there = absurd there
  port_read-IsKept r (at_once note) s go there = (refl, refl, omega arith)
  port_read-IsKept r refused s go there = (rw go refl, refl, omega arith)

  port_connecting-IsKept :
      (r : Round) (o : Option ℕ) (s : PortState)
      → r.stop_later ≡ false
      → IsSettled r.read
      → ((h : ℕ) × (o ≡ some h))
      → IsKept r r.read s (port_connecting sql_ok client r o s)
  unfolding port_connecting
  port_connecting-IsKept r none s go there h = absurd (cc h.1)
  port_connecting-IsKept r (some h) s go there _ = port_read-IsKept r r.read _ go there

  port_round-IsKept :
      (r : Round) (s : PortState) → IsLive r → IsKept r r.read s (port_round sql_ok client r s)
  unfolding port_round
  port_round-IsKept r s live =
      if-cases (IsKept r r.read s) s.connected _ _ (λ _. port_read-IsKept r r.read s live.1 live.2)
        (λ _. port_connecting-IsKept r r.connects s live.1 live.2 live.3)

  -- While the service runs, no read times out, and each time the port is gone the thread can connect
  -- again in the same round, each message that a read brings is handled once, in order, whatever
  -- cancelled reads, failures and connections come between; the thread goes on, and leaves no more reads
  -- pending than there were.
  pub port_thread-table :
      (rounds : List Round) (s : PortState)
      → All IsLive rounds
      → ((port_thread sql_ok client rounds s).0 ≡ false)
        × ((port_thread sql_ok client rounds s).1.table ≡ store_reads rounds s.table)
        × ((port_thread sql_ok client rounds s).1.stale ≤ s.stale)
  unfolding port_thread store_reads
  port_thread-table [] s live = (refl, refl, omega arith)
  port_thread-table (r ∷ rounds) s live =
      let kept = port_round-IsKept r s live.0 in
      let one = port_round sql_ok client r s in
      let later = port_thread-table rounds one.1 live.1 in
      let rest = port_thread sql_ok client rounds one.1 in
      let ended : Bool × PortState = (true, port_close sql_ok client one.1) in
      let Went : Bool × PortState → Type 0 = λ t.
        (t.0 ≡ false) × (t.1.table ≡ store_reads (r ∷ rounds) s.table) × (t.1.stale ≤ s.stale) in
      if-cases Went r.stop (true, port_close sql_ok client s) (if one.0 then rest else ended)
        (λ e. absurd (cc (e, live.0.0)))
        (λ _.
          if-cases Went one.0 rest ended
            (λ _.
              (later.0, later.1 ∙ ap (store_reads rounds) kept.1, omega (arith, later.2, kept.2)))
            (λ e. absurd (cc (e, kept.0))))

  port_read-IsPaired :
      (r : Round) (read : Read) (s : PortState)
      → IsPaired s
      → IsPaired (port_read sql_ok client r read s).1
  unfolding port_read
  port_read-IsPaired r (arrived note bytes) s h = h
  port_read-IsPaired r aborted s h = h
  port_read-IsPaired r broken s h = tt
  port_read-IsPaired r quiet s h =
      if-cases (λ (one : Bool × PortState). IsPaired one.1) r.stop_later _ _ (λ _. h)
        (λ _.
          if-cases (λ (one : Bool × PortState). IsPaired one.1)
            (leb (s.last_sample + rbsvc_stats_interval) r.now) _ _ (λ _. h) (λ _. h))
  port_read-IsPaired r (at_once note) s h = h
  port_read-IsPaired r refused s h = tt

  port_connecting-IsPaired :
      (r : Round) (o : Option ℕ) (s : PortState)
      → s.connected ≡ false
      → IsPaired (port_connecting sql_ok client r o s).1
  unfolding port_connecting
  port_connecting-IsPaired r none s e = rw e tt
  port_connecting-IsPaired r (some h) s e = port_read-IsPaired r r.read _ tt

  port_round-IsPaired :
      (r : Round) (s : PortState) → IsPaired s → IsPaired (port_round sql_ok client r s).1
  unfolding port_round
  port_round-IsPaired r s h =
      if-cases (λ (one : Bool × PortState). IsPaired one.1) s.connected _ _
        (λ _. port_read-IsPaired r r.read s h) (λ e. port_connecting-IsPaired r r.connects s e)

  abbrev pub IsClosed : Bool × PortState → Type 0
  IsClosed r = ((r.0 ≡ true) × (r.1.port ≡ none)) ⊎ ((r.0 ≡ false) × IsPaired r.1)

  -- Between rounds the thread holds a port exactly while it takes itself for connected, and it ends with
  -- the port closed.
  port_thread-IsClosed :
      (rounds : List Round) (s : PortState)
      → IsPaired s
      → IsClosed (port_thread sql_ok client rounds s)
  unfolding port_thread
  port_thread-IsClosed [] s h = inr (refl, h)
  port_thread-IsClosed (r ∷ rounds) s h =
      let one = port_round sql_ok client r s in
      let rest = port_thread sql_ok client rounds one.1 in
      let ended : Bool × PortState = (true, port_close sql_ok client one.1) in
      if-cases IsClosed r.stop (true, port_close sql_ok client s) (if one.0 then rest else ended)
        (λ _. inl (refl, refl))
        (λ _.
          if-cases IsClosed one.0 rest ended
            (λ _. port_thread-IsClosed rounds one.1 (port_round-IsPaired r s h))
            (λ _. inl (refl, refl)))
