-- ===== src/Connection/Reconnect.antt =====
-- A reconnection leaves what is to be sent and awaited.
use libmc.Prelude.{
  ℕ, ◌+◌, ◌≡◌, refl, ◌∙◌, true, false, Bool, Option, none, some, if◌then◌else◌, ltb, leb,
}
use libmc.Connection.{
  Connection, System, close, close_fd, connected, connect, reconnect_due, try_reconnect,
}

pub record Same (c c' : Connection) : Type 0 where
  pub writer : c'.writer ≡ c.writer
  pub parser : c'.parser ≡ c.parser
  pub counter : c'.counter ≡ c.counter

pub Same-refl : (c : Connection) → Same c c
Same-refl c = record { writer = refl; parser = refl; counter = refl }

pub Same-trans : (a b c : Connection) → Same a b → Same b c → Same a c
Same-trans a b c s t = record {
  writer = t.writer ∙ s.writer;
  parser = t.parser ∙ s.parser;
  counter = t.counter ∙ s.counter;
}

changed :
    (c c' : Connection)
    → (c'.writer ≡ c.writer)
    → (c'.parser ≡ c.parser)
    → (c'.counter ≡ c.counter)
    → Same c c'
changed c c' w p n = record { writer = w; parser = p; counter = n }

-- The same on both branches.
Same-either :
    {W : Type 0} (c : Connection) (b : Bool) (x y : Bool × Connection × W)
    → Same c x.1
    → Same c y.1
    → Same c (if b then x else y).1
Same-either c true x y s t = s
Same-either c false x y s t = t

close_fd-Same : (fd : Option ℕ) (c : Connection) → Same c (close_fd fd c)
unfolding close_fd
close_fd-Same none c = Same-refl c
close_fd-Same (some fd) c = go (ltb 0 fd)
  where
    go : (b : Bool) → Same c (if b then record c { alive = false; socket_fd = none } else c)
    go true = changed c (record c { alive = false; socket_fd = none }) refl refl refl
    go false = Same-refl c

connected-Same :
    {W : Type 0} (c d : Connection) (r : Option ℕ × W) → Same c d → Same c (connected d r).1
connected-Same c d (none, w) s = s
connected-Same c d (some fd, w) s =
    changed c (record d { socket_fd = some fd; alive = true }) s.writer s.parser s.counter

connect-Same : {W : Type 0} (sys : System W) (c : Connection) (w : W) → Same c (connect sys c w).1
unfolding connect
connect-Same sys c w =
    connected-Same c (close c) (sys.open_socket (close c) w) (close_fd-Same c.socket_fd c)

reconnect_due-Same :
    {W : Type 0} (sys : System W) (c : Connection) (w : W) → Same c (reconnect_due sys c w).1
unfolding reconnect_due
reconnect_due-Same sys c w =
    let now = (sys.time w).0 in
    let r = connect sys c (sys.time w).1 in
    let s = connect-Same sys c (sys.time w).1 in
    Same-either c (leb c.dead_until now) _ _
      (Same-either c r.0 _ _
        (changed c (record (r.1) { dead_until = 0 }) s.writer s.parser s.counter)
        (changed c (record (r.1) { dead_until = now + (r.1).retry_timeout }) s.writer s.parser
          s.counter))
      (Same-refl c)

pub try_reconnect-Same :
    {W : Type 0} (sys : System W) (c : Connection) (w : W) → Same c (try_reconnect sys false c w).1
unfolding try_reconnect
try_reconnect-Same sys c w = Same-either c c.alive _ _ (Same-refl c) (reconnect_due-Same sys c w)
