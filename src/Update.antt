-- ===== src/Update.antt =====
-- Updates of the page: public/pwa.js. A new service worker waits for the page to let it go on; after the
-- reload the page tells whether it runs the new version.
pub mod Loads
pub mod Worker
pub mod Restart
mod Examples
use shells.Prelude.{
  ℕ, zero, suc, ◌+◌, Bool, true, false, ◌&&◌, ◌||◌, not, Option, none, some, List, [], ◌∷◌, Str,
  ◌==◌, str_eq, nat_eq, if◌then◌else◌, leb,
}

-- `String(v || '').replace(/^v/, '')`
unfoldable pub bare_v : Str → Str
bare_v [] = []
bare_v (c ∷ s) = if c == 118 then s else c ∷ s

-- What the session storage keeps over a reload.
pub record Stash : Type 0 where
  pub updated_to : Option Str
  pub retry : Bool

-- What a page does after it is loaded.
pub data Loaded : Type 0 where
  nothing : Loaded
  force_reload : Loaded
  updated : Str → Loaded
  incomplete : Str → Loaded

abbrev pub cleared : Stash
cleared = record { updated_to = none; retry = false }

unfoldable pub check_version : Str → Bool → Str → Stash × Loaded
unfolding bare_v
check_version new retry version =
    if bare_v version == bare_v new
    then (cleared, updated (bare_v new))
    else if retry
    then (cleared, incomplete (bare_v new))
    else (record { updated_to = some new; retry = true }, force_reload)

-- `toastUpdated`, on a page of a version.
unfoldable pub toast_updated : Stash → Str → Stash × Loaded
unfolding check_version
toast_updated s version = elim s.updated_to [
  | none ↦ (s, nothing)
  | some new ↦ if new == [] then (s, nothing) else check_version new s.retry version
]

-- The variables of the update of the service worker. `stashing` counts the requests for the version
-- that are on their way; `skips` and `reloads` count the messages `SKIP_WAITING` and the reloads.
pub record Page : Type 0 where
  pub worker : Bool
  pub update_requested : Bool
  pub reloading : Bool
  pub modal_shown : Bool
  pub stashing : ℕ
  pub skips : ℕ
  pub reloads : ℕ

abbrev pub fresh : Page
fresh = record {
  worker = false;
  update_requested = false;
  reloading = false;
  modal_shown = false;
  stashing = 0;
  skips = 0;
  reloads = 0;
}

-- A new worker is installed, with the command bar empty or not; the user answers the dialog; a request
-- for the version is over; another worker takes the page over.
pub data Event : Type 0 where
  update_ready : Bool → Event
  answer : Bool → Event
  stashed : Event
  controller_change : Event

unfoldable pub release_worker : Page → Page
release_worker p = record p {
  update_requested = true;
  skips = if p.worker then suc p.skips else p.skips;
}

unfoldable pub apply_update : Page → Page
apply_update p =
    if p.update_requested || p.reloading then p else record p { stashing = suc p.stashing }

unfoldable pub show_update_bar : Page → Page
show_update_bar p = if p.modal_shown then p else record p { modal_shown = true }

-- `onUpdateReady`, after `updateWorker` is set.
unfoldable pub on_update_ready : Page → Bool → Page
unfolding apply_update show_update_bar
on_update_ready p empty = if empty then apply_update p else show_update_bar p

-- The end of the dialog, if it is open.
unfoldable pub on_answer : Page → Bool → Page
on_answer p ok =
    if p.modal_shown
    then record p { modal_shown = false; stashing = if ok then suc p.stashing else p.stashing }
    else p

-- The `finally` of `stashNewVersion`, where a request is on its way.
unfoldable pub stash_over : Page → ℕ → Page
unfolding release_worker
stash_over p zero = p
stash_over p (suc n) = release_worker (record p { stashing = n })

unfoldable pub on_stashed : Page → Page
unfolding stash_over
on_stashed p = stash_over p p.stashing

unfoldable pub on_controller_change : Page → Page
on_controller_change p =
    if not p.update_requested || p.reloading
    then p
    else record p { reloading = true; reloads = suc p.reloads }

unfoldable pub update_step : Page → Event → Page
unfolding on_update_ready on_answer on_stashed on_controller_change
update_step p (update_ready empty) = on_update_ready (record p { worker = true }) empty
update_step p (answer ok) = on_answer p ok
update_step p stashed = on_stashed p
update_step p controller_change = on_controller_change p

-- The body of `/api/health`.
pub record Health : Type 0 where
  pub version : Str
  pub update_refused : Bool

pub data Up : Type 0 where
  reachable : Up
  refused : Str → Up
  gave_up : Up
  polling : Up

-- A poll of `pwaReloadAfterUpdate`, with the rest of the polls; none where the server does not answer.
unfoldable pub on_poll : Str → Option Health → Bool → Up → Up
unfolding bare_v
on_poll target none last rest = if last then gave_up else rest
on_poll target (some h) last rest =
    if bare_v h.version == bare_v target
    then reachable
    else if h.update_refused
    then refused h.version
    else if last
    then gave_up
    else rest

-- The polls; `tries` counts those before. It is `polling` while an answer is to come.
unfoldable pub poll : Str → ℕ → List (Option Health) → Up
unfolding on_poll
poll target tries [] = polling
poll target tries (h ∷ hs) =
    let rest = poll target (suc tries) hs in on_poll target h (leb 50 (suc tries)) rest
