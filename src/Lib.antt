-- ===== src/Lib.antt =====
-- g2mirror mirrors a terminal session to remote devices. A wrapper (src/main.rs) runs a command on
-- a pty, keeps a model of its screen (src/mirror.rs) with an archive of scrollback
-- (src/history.rs), and serves clients on a session socket (src/control.rs, src/paths.rs). A server
-- (src/bin/g2mirror-server.rs) relays between devices and the session sockets under a policy read
-- from a commented JSON file (src/jsonc.rs). `--attach` (src/attach.rs) is a client that shows a
-- session in a terminal of its own. Paths are from the repository's root.
--
-- Which file models what:
--   Prelude    shared tests, lists, texts, maps, results, bits of bytes, and decimal numbers as
--              Rust prints and parses them.
--   History    src/history.rs, all of History. The index is a u64 and wraps at 2^64.
--   Screen     the rendering part of src/mirror.rs: Vt100 is the interface to the terminal of the
--              vt100 crate, Style and Serialize are the row records, Render the region, the snapshot
--              and the cursor, Laws the laws that are used of the crate.
--   Mirror     Mirror of src/mirror.rs: State (the fields), Staging (park, harvest and archiving),
--              HostSide (the bytes for the host), Views (start_view, end_view, host_resized) and
--              Process (process). Model fills the interface that Session has of the mirror, and
--              Ticker is a small terminal with all the laws.
--   Follow     the start of a live view from a snapshot, a history reply and pending output, which
--              src/attach.rs and src/bin/g2mirror-view.rs both write out.
--   Attach     src/attach.rs: Args (parse_attach_args), Choice (the candidates and the picker) and
--              Attached with on_message, on_keys and the arm of a resize.
--   Viewer     src/bin/g2mirror-view.rs: parse_connection_string and parse_list_keys.
--   Bell       BellDebouncer of src/control.rs, and the arms of src/main.rs that use it. Instants
--              are milliseconds of a clock that the events carry.
--   Input      InputQueue of src/main.rs with the checks of the input message. A pump is given the
--              clock's readings and whether each write to the pty succeeds.
--   Frames     Client::next_message of src/control.rs, up to the decoding of a line, which next_line
--              of src/bin/g2mirror-server.rs and of src/attach.rs repeat.
--   Jsonc      strip_comments of src/jsonc.rs; the index is the list of bytes that are left.
--   Paths      socket names and cleanup_stale_sockets of src/paths.rs. The directory, the clock and
--              what kill says are arguments.
--   Server     src/bin/g2mirror-server.rs: Config (tokens, filters, launch presets, size ranks),
--              AddToken (add_token) with Splice (insert_token_text), Auth (authenticate_device),
--              Guard (UnauthGuard, as tasks whose atomic operations interleave), Protocol (messages
--              of src/protocol.rs), Monitor (BellState, run_monitor, monitor_manager,
--              list_sessions), Launch (launch_session), Device (handle_device and
--              handle_device_message). JSON, regexes, the digest and the system are functions.
--   Session    src/main.rs: Client (Client of src/control.rs and FromSession of src/protocol.rs),
--              View (refresh_view), Sweep (sweep_and_refresh), Handler (handle_viewer_message),
--              Admission (the init and viewer arms of the main loop) and Output (the arms for the
--              child's output, a resize of the host and the hotkey, drain_pty).
--
-- How they interact: a device's text reaches Device.turn, which answers it, opens a session, or
-- forwards the line; the session's Handler takes it from there, asks View for a size and Input for
-- the pty, and reads History. View uses the mirror through MirrorModel, an interface with two laws:
-- a started view is the current one, and none is left after its end; Mirror/Model fills it. The
-- mirror writes rows with Screen and pushes them to History. An attached client runs a mirror of
-- its own over the stream that the session sends it.
--
-- State is passed explicitly. An await that may fail is an answer that the input carries: a client
-- holds the outcomes of its sends to come and the messages that went through, the host terminal the
-- outcomes of its transitions, and a device's input says whether its socket opens and its write
-- succeeds. Terminal bytes stand for their base64 text, and error texts are constructors. The
-- callbacks of the vt100 parser are the events that processing bytes yields. In the attach client
-- writes and sends succeed.
--
-- The vt100 crate is a parameter. What is relied on of it is stated where it is used: sizes
-- (SizeLaws), the scrollback buffer and its offset (StagingLaws), and that applying a diff to the
-- old screen shows the new one (DiffLaws).
--
-- Fuel: History.fetch_loop has one more than the lines retained, since each round takes a line;
-- Sweep.sweep_loop has one more than the viewers, since each round but the last loses one;
-- Decimal.digits has one more than the number; Frames.pop has one more than the bytes buffered;
-- Staging.archive_loop has one more than the rows to archive, and HostSide.push_batches one more
-- than the rows hidden, since each round of either takes a row where the terminal has one;
-- Process.chunks_from has the number of bytes; Splice.find_key and find_close have one more than
-- the bytes, since each round goes on by a byte (Splice/Fuel). Running out is none where there is
-- an option, and it is shown not to happen where a result is claimed.
--
-- Not modelled: of the viewer (src/bin/g2mirror-view.rs) all but Follow and Viewer; init_config,
-- which writes a fixed template; of src/attach.rs the probing of sockets and what is printed of a
-- probe; of src/main.rs the greeting of new connections. Process start, argument parsing of
-- src/main.rs, terminal modes and drawing are I/O. Third-party crates (vt100, serde_json, regex,
-- sha2, base64, tokio, rustix) are not part of the repository and are parameters.
pub mod Attach
pub mod Bell
pub mod Follow
pub mod Frames
pub mod History
pub mod Input
pub mod Jsonc
pub mod Mirror
pub mod Paths
pub mod Prelude
pub mod Screen
pub mod Server
pub mod Session
pub mod Viewer
