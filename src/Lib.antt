-- ===== src/Lib.antt =====
-- The browser client of shells, a web terminal: a page shows the shell sessions of a server as tiles,
-- over one encrypted WebSocket.
--
-- The parts of the client and the files that model them:
--
-- * Sessions (Sessions/*.antt) is the core, `public/js/shell-sessions.js`: the map of sessions, which
--   one is active and which one is the master, which tile is in full screen, which sessions sleep, and
--   the messages sent. State.antt has the state, Active.antt `setActive`, `toggleFullscreen` and
--   `updateSleepState`, Lifecycle.antt `mount`, `destroy` and `sync`, Roles.antt the claim of the
--   active client and the scaling of `public/js/shell/scaling.js`, Restore the load of a page
--   (`restore`), Control the control messages of the server after the login. The other files are
--   proofs: Sleep, Frame, Settled, Fullscreen and Server on `setActive`, Destroy, Kept, Mounting and
--   Sync on the lifecycle, Choice and Restored on `restore`, Controlled on the control messages, Navigation on
--   `next` and `previous`, Races on orders of events.
-- * Bell (Bell.antt and Bell/*.antt) is the bell that rings when the output of a session ends:
--   `runTick`, `_noteOutput`, `_evalBusy` and `_ringBell` of `public/js/shell-sessions.js`.
-- * Connection (Connection/*.antt) is `public/js/crypto.js` and `getWs` of
--   `public/js/shell-sessions.js`: Hex and Sid the encodings, Crypto the key agreement, Handshake the
--   branch `crypto-ack` and `lock`, Socket the events of the WebSocket, Fetch the answers of
--   `encryptedFetch`. Trusted, Keyed, Agreed, Login (the states that a connection can reach), Reached, Lock and
--   Backoff are proofs.
-- * Recents (Recents/*.antt) is `public/js/shell/recents.js`: Paths the normal form of a path, State
--   the lists of paths and backends, Commands those of commands; Normal, Dots, Saved, Unique and
--   Keeping are proofs.
-- * Autolock (Autolock.antt, Autolock/Idle.antt) is the idle clock of `public/js/shell-sessions.js`, with
--   the minutes that are stored for it and `sendLockAll`.
-- * Backends (Backends/*.antt) is `public/js/shell/backends.js`: Text what it uses of strings and
--   numbers, Address `_parseSSHInput` and `_connLabel`, Choose the choice of a backend in
--   `promptCreate` with the probe and the password loop, Create its end and `create`, Remove the
--   removal of a connection, Complete the suggestions for folders and commands; Printed, Labels, Chosen,
--   Retries, Launch, Removed and Completed are proofs.
-- * Paste (Paste.antt, Paste/*.antt) is `public/js/shell/paste.js`: the upload of pasted and dropped
--   files (Dropped is its proof), and the caption in Caption.
-- * Switcher (Switcher.antt, Switcher/*.antt) is the capture of a preview in `public/js/switcher.js`,
--   with proofs in Captured and Colors.
-- * Touch (Touch.antt, Touch/*.antt) is the gestures of `public/js/mobile.js`, with proofs in Gesture
--   and Lift, and its layout of a mobile device in Rotation.
-- * Update (Update.antt, Update/*.antt) is the update of the page in `public/pwa.js`: the check after a
--   reload (Loads), the service worker (Worker) and the wait for a new server (Restart).
-- * Keyboard (Keyboard.antt, Keyboard/Taps.antt) is the buttons of `public/js/keyboard-picker.js`, and
--   Layout (Layout.antt, Layout/Fit.antt) the tracks of `public/js/layout.js`. Grid (Grid.antt,
--   Grid/Dragged.antt) is the drag of a line between tracks in `public/js/grid-resizer.js`.
-- * Settings (Settings.antt, Settings/Range.antt) is the font size of `public/js/shell-sessions.js`.
-- * Stream (Stream.antt, Stream/*.antt) is the encrypted stream: `encrypt` and `decrypt` of
--   `public/js/crypto.js` and the frames, Sending the queue of `sendWs` and Receiving the chain of
--   received frames in `public/js/shell-sessions.js`; Sent, Drained, Handled and Frames are proofs.
-- * Dialogs (Dialogs/*.antt) is `public/js/tui-dialog.js` with the listeners of
--   `public/js/tui-dialog/dom.js`: Keys the key presses, Confirm `alert` and `confirm`, Select, Prompt
--   and Status the functions of these names, Page the key presses that reach all open dialogs.
--   Dispatched, Confirmed, Shown, Selected, Cards, Prompted and Pressed are proofs.
-- * Search (Search.antt, Search/Found.antt) is `public/js/shell/search.js`, and UpdateCheck
--   (UpdateCheck.antt; Scheduled, Good and Offered are proofs) `public/js/shell/update.js`
--   with the check that `restore` makes when a page is loaded.
-- * Badges (Badges.antt; Hues and Titles are proofs) is the letters and colours of the badges in
--   `public/js/shell-sessions.js`.
-- * JsMap and Prelude are JavaScript's `Map` in its order of insertion, numbers, lists, strings as
--   UTF-16 code units, and `===`.
--
-- How the parts interact: the connection delivers what the server sends; `sync` mounts and destroys
-- sessions after the login; `mount` and `destroy` call `setActive`, which sends `pause` and
-- `resume`; output feeds the bell of its session; the bell reads which session is active. `restore`
-- runs after the login, and so after its `sync`. The dialogs of Backends end in `create`, which
-- mounts a session and makes it active, and they read and write the lists of Recents.
--
-- The other parts take a dialog's answer as an argument, and send at once; Dialogs and Stream model
-- what is between: the keys and clicks that make the answer, and the frames that carry a message.
--
-- Conventions. A method of `ShellSessions` is a function from the state to the state, which keeps
-- the messages sent as a list. A session id is a number in Sessions and a text in Connection. The
-- clock is an argument. An `await` does not let other events in: the operations are atomic, except
-- where Races takes a delayed part, such as the end of an animation, as a step of its own, where a
-- lock comes while a handshake waits for the secret, and in Stream and in the prompt of Dialogs,
-- where an `await` is two steps. What the user answers to a
-- dialog, what the server sends and the measured sizes are arguments. The browser's cryptography is
-- the records `WebCrypto` and `Cipher`. Every loop is a recursion on a list or a counter; a loop
-- that asks the user or the server again is one on the list of the answers, and ends as `waiting` or
-- `polling` where that list is used up. The digits of a number are made on fuel, one more than the
-- number, which is enough since each digit divides the number by ten. Storage is taken to work,
-- where the code swallows its errors. Numbers are exact. `sync` destroys the
-- sessions that are gone one after the other, where the code starts all of them before it waits, so
-- that only the order of their messages may differ.
--
-- Not modelled: the DOM, animations and styles; the toasts and the construction of the dialogs in
-- `public/js/tui-dialog.js`; the stored sizes of the grid, the input filter, the order of the suggested
-- backends, the pasted pages with images, the viewport handling of
-- `public/js/mobile.js`, the gestures and cards of the switcher and the installation in
-- `public/pwa.js`; the themes; the vendored terminal and its search addon in `public/vendor`; the
-- server in `internal`, which is another program with its own language.
pub mod Prelude
pub mod Bell
pub mod JsMap
pub mod Sessions
pub mod Recents
pub mod Connection
pub mod Dialogs
pub mod Stream
pub mod Search
pub mod UpdateCheck
pub mod Badges
pub mod Keyboard
pub mod Layout
pub mod Settings
pub mod Touch
pub mod Backends
pub mod Paste
pub mod Update
pub mod Switcher
pub mod Autolock
pub mod Grid
