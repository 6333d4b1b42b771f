-- ===== src/Pool/Poll.antt =====
-- `waitPoll`: the loop that sends the requests of the active connections and receives the responses.
-- `none` is a fault, or that the fuel of this loop or of a parser's ran out.
use libmc.Prelude.{
  ℕ, suc, ◌+◌, ◌-◌, ◌%◌, ◌^◌, ◌&&◌, Bool, true, false, not, List, [], ◌∷◌, Option, none, some, ◌==◌,
  if◌then◌else◌, get_elem?, set, ◌>>=◌,
}
use libmc.Types.{ErrCode}
use libmc.BufferWriter.{is_read}
use libmc.Parser.Monad.{Outcome}
use libmc.Parser.Process.{process_packets}
use libmc.Connection
use libmc.Connection.{Connection, System, mark_dead}
use libmc.Pool.State.{Pool, Build}

-- `pollfd_t` with POLLIN and POLLOUT of its events.
pub record PollFd : Type 0 where
  pub fd : Option ℕ
  pub wants_in : Bool
  pub wants_out : Bool

-- `revents`: POLLERR, POLLHUP or POLLNVAL; POLLIN; POLLOUT.
pub record Revents : Type 0 where
  pub failed : Bool
  pub can_in : Bool
  pub can_out : Bool

-- What `poll` returns: -1, 0, or a number above 0 with the events of each descriptor.
pub data PollAnswer : Type 0 where
  poll_failed poll_timeout : PollAnswer
  polled : List Revents → PollAnswer

-- What the loop works with: `fuel` is each parser's, `min_capacity` DataBlock's.
pub record Poller (W : Type 0) : Type 0 where
  pub build : Build W
  pub min_capacity : ℕ
  pub fuel : ℕ
  pub poll : List PollFd → ℕ → W → PollAnswer × W

pub record Waiting (W : Type 0) : Type 0 where
  pub pool : Pool W
  pub fds : List PollFd
  pub ret_code : ErrCode

-- `--m_nActiveConn`, in 32 bits.
abbrev pub one_less : {W : Type 0} → Waiting W → Waiting W
one_less s = record s {
  pool = record (s.pool) { n_active = (s.pool.n_active + (2 ^ 32 - 1)) % 2 ^ 32 };
}

abbrev pub give_up : {W : Type 0} → ErrCode → Waiting W → Waiting W
give_up e s = one_less (record s { ret_code = e })

-- The connection and the entry of `pollfds` at `fd_idx`, with the index in `m_conns`.
pub record Entry : Type 0 where
  pub conn_idx : ℕ
  pub conn : Connection
  pub fd : PollFd

unfoldable pub entry_at : {W : Type 0} → ℕ → Waiting W → Option Entry
entry_at k s = do
  i ← get_elem? s.pool.active k
  c ← get_elem? s.pool.conns i
  fd ← get_elem? s.fds k
  some (record { conn_idx = i; conn = c; fd = fd })

abbrev pub put_entry : {W : Type 0} → ℕ → Entry → W → Waiting W → Waiting W
put_entry k e w s = record s {
  pool = record (s.pool) { conns = set s.pool.conns e.conn_idx e.conn; world = w };
  fds = set s.fds k e.fd;
}

module _ {W : Type 0} (poller : Poller W) where
  -- `markDeadConn`.
  unfoldable pub mark_dead_conn : Entry → W → Option (Entry × W)
  mark_dead_conn e w = do
    (c, w') ← mark_dead poller.build.debug poller.build.system false 0 e.conn w
    some (
      record e { conn = c; fd = record { fd = c.socket_fd; wants_in = false; wants_out = false } },
      w',
    )

  abbrev only_out : Entry → Entry
  only_out e = record e {
    fd = record { fd = e.conn.socket_fd; wants_in = false; wants_out = true };
  }

  -- `rewindConn`.
  unfoldable pub rewind_conn : Entry → Option Entry
  rewind_conn e = do c ← Connection.rewind e.conn; some (only_out (record e { conn = c }))

  -- A connection has failed: it is marked dead, and gets its request again if it comes back.
  unfoldable pub lose : ErrCode → ℕ → Entry → Waiting W → Option (Waiting W)
  unfolding mark_dead_conn rewind_conn
  lose err k e s = do
    (e1, w1) ← mark_dead_conn e s.pool.world
    let (up, c, w2) = Connection.try_reconnect poller.build.system true e1.conn w1
    let e2 = record e1 { conn = c }
    if up
        then (do e3 ← rewind_conn e2; some (put_entry k e3 w2 s))
        else some (give_up err (put_entry k e2 w2 s))

  -- A connection that has not sent anything has failed: it only starts to send.
  unfoldable pub lose_unsent : ℕ → Entry → Waiting W → Option (Waiting W)
  unfolding mark_dead_conn
  lose_unsent k e s = do
    (e1, w1) ← mark_dead_conn e s.pool.world
    let (up, c, w2) = Connection.try_reconnect poller.build.system false e1.conn w1
    let e2 = record e1 { conn = c }
    if up
        then some (put_entry k (only_out e2) w2 s)
        else some (give_up ErrCode.recv_err (put_entry k e2 w2 s))

  -- A server has answered with an error: the connection is marked dead, and given up.
  unfoldable pub refuse : ErrCode → ℕ → Entry → Waiting W → Option (Waiting W)
  unfolding mark_dead_conn
  refuse err k e s = do
    (e1, w1) ← mark_dead_conn e s.pool.world
    some (give_up err (put_entry k e1 w1 s))

  -- Nothing, or -1, has been received.
  abbrev pub is_lost : Option ℕ → Bool
  is_lost none = true
  is_lost (some n) = n == 0

  -- A stage of the loop's body; `false` stands for `goto next_fd`.
  abbrev pub Stage : Type 0
  Stage = Waiting W → Option (Bool × Waiting W)

  abbrev leave : Option (Waiting W) → Option (Bool × Waiting W)
  leave none = none
  leave (some s) = some (false, s)

  unfoldable pub stage_failed : ℕ → Revents → Stage
  unfolding entry_at lose
  stage_failed k rev s =
      if rev.failed
      then (do e ← entry_at k s; leave (lose ErrCode.conn_poll_err k e s))
      else some (true, s)

  -- First recv before send, to find a connection that the server has closed.
  unfoldable pub stage_peek : ℕ → Revents → Stage
  unfolding entry_at lose_unsent
  stage_peek k rev s = do
    e ← entry_at k s
    if rev.can_in && not (is_read e.conn.writer)
        then (do
          (n, c, w) ←
              Connection.recv poller.min_capacity poller.build.system true e.conn s.pool.world
          let s' = put_entry k (record e { conn = c }) w s
          if is_lost n
              then leave (lose_unsent k (record e { conn = c }) s')
              else some (
                true,
                put_entry k (record e { conn = c; fd = record (e.fd) { wants_in = false } }) w s,
              ))
        else some (true, s)

  unfoldable pub stage_send : ℕ → Revents → Stage
  unfolding entry_at lose
  stage_send k rev s =
      if rev.can_out
      then (do
        e ← entry_at k s
        (n, c, w) ← Connection.send poller.build.system e.conn s.pool.world
        elim n [
          | none ↦ leave (
              lose ErrCode.send_err k (record e { conn = c })
                (put_entry k (record e { conn = c }) w s))
          | some left ↦
              let out = if left == 0 then false else e.fd.wants_out in
              let fd = record (e.fd) { wants_in = true; wants_out = out } in
              let s' = put_entry k (record e { conn = c; fd = fd }) w s in
              some (true, if left == 0 && (c.counter == 0) then one_less s' else s')
        ])
      else some (true, s)

  -- What follows from the end of `process`.
  unfoldable pub processed : ℕ → Entry → Outcome (Unit {0}) → Waiting W → Option (Waiting W)
  unfolding refuse
  processed k e (Outcome.done u q) s =
      let e' = record e {
        conn = record (e.conn) { parser = q };
        fd = record (e.fd) { wants_in = false };
      } in
      some (one_less (put_entry k e' s.pool.world s))
  processed k e (Outcome.stop ErrCode.incomplete_buffer_err q) s =
      some (put_entry k (record e { conn = record (e.conn) { parser = q } }) s.pool.world s)
  processed k e (Outcome.stop ErrCode.programming_err q) s =
      refuse ErrCode.programming_err k (record e { conn = record (e.conn) { parser = q } }) s
  processed k e (Outcome.stop ErrCode.mc_server_err q) s =
      refuse ErrCode.mc_server_err k (record e { conn = record (e.conn) { parser = q } }) s
  processed k e _ s = none

  unfoldable pub stage_recv : ℕ → Revents → Stage
  unfolding entry_at lose processed
  stage_recv k rev s =
      if rev.can_in
      then (do
        e ← entry_at k s
        (n, c, w) ←
            Connection.recv poller.min_capacity poller.build.system false e.conn s.pool.world
        let e' = record e { conn = c }
        let s' = put_entry k e' w s
        if is_lost n then leave (lose ErrCode.recv_err k e' s') else (do
          o ← process_packets poller.build.debug poller.fuel c.parser
          leave (processed k e' o s')))
      else some (true, s)

  abbrev and_stage : Option (Bool × Waiting W) → Stage → Option (Bool × Waiting W)
  and_stage none f = none
  and_stage (some (false, s)) f = some (false, s)
  and_stage (some (true, s)) f = f s

  -- The body of the inner loop.
  unfoldable pub serve : ℕ → Revents → Stage
  unfolding stage_failed stage_peek stage_send stage_recv
  serve k rev s =
      and_stage (and_stage (and_stage (stage_failed k rev s) (stage_peek k rev)) (stage_send k rev))
        (stage_recv k rev)

  -- The inner loop, from `fd_idx` on.
  unfoldable pub serve_from : ℕ → List Revents → Waiting W → Option (Waiting W)
  unfolding serve
  serve_from k [] s = some s
  serve_from k (rev ∷ revs) s = do (on, s') ← serve k rev s; serve_from (suc k) revs s'
