-- ===== src/Loop/Connection.antt =====
-- The three callbacks of a `TcpConnection`: how they are set and how the loop calls them.
use filedisk_server.Common.{ℕ, Option, none, some}
use filedisk_server.Loop.Poll.{Callbacks}

pub record Connection (W : Type 0) : Type 0 where
  pub fd : ℕ
  pub on_new_connection_cb : Option (ℕ → W → W)
  pub on_message_cb : Option (ℕ → W → W)
  pub on_close_cb : Option (ℕ → W → W)

module _ {W : Type 0} where
  -- The constructor leaves the callbacks empty.
  abbrev pub new_connection : ℕ → Connection W
  new_connection fd = record {
    fd = fd;
    on_new_connection_cb = none;
    on_message_cb = none;
    on_close_cb = none;
  }

  abbrev pub set_new_connection_callback : Option (ℕ → W → W) → Connection W → Connection W
  set_new_connection_callback cb con = record con { on_new_connection_cb = cb }

  abbrev pub set_message_callback : Option (ℕ → W → W) → Connection W → Connection W
  set_message_callback cb con = record con { on_message_cb = cb }

  abbrev pub set_close_callback : Option (ℕ → W → W) → Connection W → Connection W
  set_close_callback cb con = record con { on_close_cb = cb }

  -- The connection that `handleNewConnection` makes with the callbacks of the loop.
  abbrev pub connection_of : Callbacks W → ℕ → Connection W
  connection_of cb fd = set_close_callback cb.on_close (
      set_message_callback cb.on_message
        (set_new_connection_callback cb.on_new_connection (new_connection fd)))

  -- The `handle…Callback` methods; without a callback they print.
  unfoldable pub call : Option (ℕ → W → W) → ℕ → W → W
  call none fd w = w
  call (some f) fd w = f fd w

  abbrev pub handle_new_connection_callback : Connection W → W → W
  handle_new_connection_callback con w = call con.on_new_connection_cb con.fd w

  abbrev pub handle_message_callback : Connection W → W → W
  handle_message_callback con w = call con.on_message_cb con.fd w

  abbrev pub handle_close_callback : Connection W → W → W
  handle_close_callback con w = call con.on_close_cb con.fd w

  -- The setters of `EventLoop` and `TcpServer::setAllCallback`.
  abbrev pub no_callbacks : Callbacks W
  no_callbacks = record { on_new_connection = none; on_message = none; on_close = none }

  abbrev pub set_loop_new_connection : Option (ℕ → W → W) → Callbacks W → Callbacks W
  set_loop_new_connection cb loop = record loop { on_new_connection = cb }

  abbrev pub set_loop_message : Option (ℕ → W → W) → Callbacks W → Callbacks W
  set_loop_message cb loop = record loop { on_message = cb }

  abbrev pub set_loop_close : Option (ℕ → W → W) → Callbacks W → Callbacks W
  set_loop_close cb loop = record loop { on_close = cb }

  abbrev pub set_all_callback :
      Option (ℕ → W → W) → Option (ℕ → W → W) → Option (ℕ → W → W) → Callbacks W → Callbacks W
  set_all_callback cb1 cb2 cb3 loop =
      set_loop_close cb3 (set_loop_message cb2 (set_loop_new_connection cb1 loop))
