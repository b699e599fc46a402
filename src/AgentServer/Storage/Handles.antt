-- ===== src/AgentServer/Storage/Handles.antt =====
-- The files that a copy opens, and that it closes them.
use live_pod_migration.Base.{ℕ, String, ◌<>◌, ◌≡◌, refl, ◌≢◌, List, [], ◌∷◌}
use live_pod_migration.Effect.{Action, Outcome, ok, err, panic, raise, resume, ◌>>=◌, finally}
use live_pod_migration.Effect.Logged.{
  WithLog, unlogged, logged, logged_ok, silent, noted, Logs, Appends, Appends-logged_ok,
  Appends-pure, Appends-then,
}
use live_pod_migration.AgentServer.Host.{Files}
use live_pod_migration.AgentServer.Storage.{write_file, copy_to_shared_storage}

-- the calls on files, logged where they succeed, and the closing of a file
pub data FileEvent : Type 0 where
  opened created : String → ℕ → FileEvent
  -- to the first
  copied : ℕ → ℕ → FileEvent
  synced closed : ℕ → FileEvent

abbrev pub recorded : {S : Type 0} → Files S → Files (WithLog FileEvent S)
recorded f = record {
  open_file = λ path. logged_ok (opened path) (f.open_file path);
  create_file = λ path. logged_ok (created path) (f.create_file path);
  copy = λ dest source. logged_ok (λ _. copied dest source) (f.copy dest source);
  sync = λ file. logged_ok (λ _. synced file) (f.sync file);
  close_file = λ file. logged (λ _. closed file) (f.close_file file);
  join = f.join;
  timestamp = silent f.timestamp;
}

-- With the source open: the destination cannot be created, or it is created, filled and synced up to the
-- first failure, all of it if the copy succeeds, and closed.
pub data Written (source : ℕ) (path : String) (old : List FileEvent)
    : Outcome String → List FileEvent → Type 0 where
  no_dest :
      {r : Outcome String} {es : List FileEvent}
      → ((a : String) → r ≢ ok a)
      → es ≡ old
      → Written source path old r es
  written :
      {r : Outcome String} {es : List FileEvent} (dest : ℕ) (steps : List FileEvent)
      → es ≡ closed dest ∷ steps
      → Logs (synced dest ∷ copied dest source ∷ []) (created path dest ∷ old) r steps
      → Written source path old r es

-- the source cannot be opened, or it is closed last
pub data Handled (local shared : String) : Outcome String → List FileEvent → Type 0 where
  no_source :
      {r : Outcome String} {es : List FileEvent}
      → ((a : String) → r ≢ ok a)
      → es ≡ []
      → Handled local shared r es
  handled :
      {r : Outcome String} {es : List FileEvent} (source : ℕ) (inner : List FileEvent)
      → es ≡ closed source ∷ inner
      → Written source shared (opened local source ∷ []) r inner
      → Handled local shared r es

-- the name of the copy
abbrev pub copy_name : String → String → String → String
copy_name uid container stamp = uid <> "-" <> container <> "-" <> stamp <> ".tar"

module _ {S : Type 0} (f : Files S) where
  write_file-Appends :
      (source dest : ℕ) (filename : String)
      → Appends
          (synced dest ∷ copied dest source ∷ [])
          (write_file (recorded f) source dest filename)
  unfolding write_file
  write_file-Appends source dest filename =
      Appends-then (copied dest source ∷ []) (synced dest ∷ []) _ _
        (Appends-logged_ok _ (copied dest source) (f.copy dest source) (λ _. refl))
        (Appends-then (synced dest ∷ []) [] _ _
          (Appends-logged_ok _ (synced dest) (f.sync dest) (λ _. refl)) (Appends-pure filename))

  -- what follows the creation of the destination
  abbrev fill : ℕ → String → ℕ → Action (WithLog FileEvent S) String
  fill source filename dest =
      finally (write_file (recorded f) source dest filename) ((recorded f).close_file dest)

  after_create :
      (r : Outcome ℕ) (source : ℕ) (filename path : String) (s : S) (old : List FileEvent)
      → let end =
          resume r raise
            (fill source filename)
            (record { inner = s; log = noted r (created path) old }) in
        Written source path old end.0 end.1.log
  unfolding logged
  after_create (ok dest) source filename path s old =
      let t : WithLog FileEvent S = record { inner = s; log = created path dest ∷ old } in
      written dest (write_file (recorded f) source dest filename t).1.log refl
        ((write_file-Appends source dest filename).at t)
  after_create (err e) source filename path s old = no_dest (λ a h. cc) refl
  after_create panic source filename path s old = no_dest (λ a h. cc) refl

  -- what follows the opening of the source
  abbrev transfer : String → String → ℕ → Action (WithLog FileEvent S) String
  transfer filename path source =
      finally ((recorded f).create_file path >>= fill source filename)
        ((recorded f).close_file source)

  after_open :
      (r : Outcome ℕ) (filename local path : String) (s : S)
      → let end =
          resume r raise
            (transfer filename path)
            (record { inner = s; log = noted r (opened local) [] }) in
        Handled local path end.0 end.1.log
  unfolding logged logged_ok
  after_open (ok source) filename local path s =
      let old = opened local source ∷ [] in
      let r = f.create_file path s in
      handled source _ refl (after_create r.0 source filename path r.1 old)
  after_open (err e) filename local path s = no_source (λ a h. cc) refl
  after_open panic filename local path s = no_source (λ a h. cc) refl

  abbrev place : String → String
  place filename = f.join "/mnt/checkpoints" filename

  -- after the time was asked for: without it, the copy ends before it opens a file
  abbrev pub Placed :
      String → String → String → Outcome String → Outcome String → List FileEvent → Type 0
  Placed uid container local (ok stamp) r es =
      Handled local (place (copy_name uid container stamp)) r es
  Placed uid container local (err e) r es = (r ≡ err e) × (es ≡ [])
  Placed uid container local panic r es = (r ≡ panic) × (es ≡ [])

  after_timestamp :
      (r : Outcome String) (uid container local : String) (s : S)
      → let end =
          resume r raise
            (λ stamp.
              (recorded f).open_file local
              >>= transfer (copy_name uid container stamp) (place (copy_name uid container stamp)))
            (record { inner = s; log = [] }) in
        Placed uid container local r end.0 end.1.log
  unfolding logged_ok
  after_timestamp (ok stamp) uid container local s =
      let name = copy_name uid container stamp in
      let r = f.open_file local s in after_open r.0 name local (place name) r.1
  after_timestamp (err e) uid container local s = (refl, refl)
  after_timestamp panic uid container local s = (refl, refl)

-- A copy to the shared mount closes the files that it opens, and no other, after their use and whatever
-- fails: the source last, the destination before it. The destination has the name of the pod's UID, the
-- container and the time that the clock told; if the copy succeeds, the data were written to it and synced
-- before it is closed. If the clock fails, so does the copy, and no file is opened.
pub copy_to_shared_storage-Handled :
    {S : Type 0} (f : Files S) (uid container local : String) (s : S)
    → Placed f uid container local
        (f.timestamp s).0
        (copy_to_shared_storage (recorded f) uid container local (unlogged s)).0
        (copy_to_shared_storage (recorded f) uid container local (unlogged s)).1.log
unfolding copy_to_shared_storage silent
copy_to_shared_storage-Handled f uid container local s =
    let r = f.timestamp s in after_timestamp f r.0 uid container local r.1
