-- ===== src/Pool/Wait.antt =====
-- `waitPoll` around the body of its inner loop. `none` is as there.
use libmc.Prelude.{
  ℕ, zero, suc, ◌||◌, true, false, List, [], ◌∷◌, Option, none, some, ltb, ◌==◌, if◌then◌else◌,
  length, get_elem?, ◌>>=◌, ◌>>◌, assert,
}
use libmc.Types.{ErrCode}
use libmc.Connection.{Connection, mark_dead}
use libmc.Pool.State.{Pool}
use libmc.Pool.Poll.{
  PollFd, poll_failed, poll_timeout, polled, Poller, Waiting, entry_at, put_entry, serve_from,
}

-- `pollfds`, before the loop.
unfoldable pub poll_fds : List ℕ → List Connection → Option (List PollFd)
poll_fds [] cs = some []
poll_fds (i ∷ is) cs = do
  c ← get_elem? cs i
  rest ← poll_fds is cs
  some (record { fd = c.socket_fd; wants_in = true; wants_out = true } ∷ rest)

module _ {W : Type 0} (poller : Poller W) where
  -- `markDeadAll`, for `n` entries from `k` on.
  unfoldable pub mark_dead_all : ℕ → ℕ → Waiting W → Option (Waiting W)
  unfolding entry_at
  mark_dead_all zero k s = some s
  mark_dead_all (suc n) k s = do
    e ← entry_at k s
    (c, w) ←
        if e.fd.wants_out || e.fd.wants_in
        then mark_dead poller.build.debug poller.build.system false 0 e.conn s.pool.world
        else some (e.conn, s.pool.world)
    mark_dead_all n (suc k) (put_entry k (record e { conn = c }) w s)

  abbrev end_with : ErrCode → Waiting W → Option (Waiting W)
  end_with err s = do
    s' ← mark_dead_all (length s.pool.active) 0 s
    some (record s' { ret_code = err })

  -- The loop, on fuel: each round polls once.
  unfoldable pub wait_loop : ℕ → Waiting W → Option (Waiting W)
  unfolding mark_dead_all serve_from
  wait_loop zero s = none
  wait_loop (suc fuel) s = elim (s.pool.n_active == 0) [
    | true ↦ some s
    | false ↦
        let (answer, w) = poller.poll s.fds s.pool.poll_timeout s.pool.world in
        let s' = record s { pool = record (s.pool) { world = w } } in
        elim answer [
          | poll_failed ↦ end_with ErrCode.poll_err s'
          | poll_timeout ↦ end_with ErrCode.poll_timeout_err s'
          | polled revs ↦ do s'' ← serve_from poller 0 revs s'; wait_loop fuel s''
        ]
  ]

  -- The arrays have as many entries as `m_nActiveConn` says.
  unfoldable pub wait_poll : ℕ → Pool W → Option (ErrCode × Pool W)
  unfolding poll_fds wait_loop
  wait_poll fuel p =
      if p.n_active == 0
      then some (if ltb 0 p.n_invalid then ErrCode.invalid_key_err else ErrCode.mc_server_err, p)
      else (do
        assert (p.n_active == length p.active)
        fds ← poll_fds p.active p.conns
        s ← wait_loop fuel (record { pool = p; fds = fds; ret_code = ErrCode.ok })
        some (s.ret_code, s.pool))
