-- ===== src/App/Uploading.antt =====
-- The requests to upload files in rstr_client/src/main.rs leave the indices as they are.
use rstr.Prelude.{◌≡◌, inl, inr, none, List, [], ◌∷◌, Bool-cases, Option-cases}
use rstr.Prelude.Text.{Text}
use rstr.Prelude.Exec.{ok, ◌>>=◌, ◌>>◌}
use rstr.Gui.Types.{ProcessingEvent, MetaFile}
use rstr.Client.Types.{Platform}
use rstr.App.Paths.{path_file_name, to_str}
use rstr.App.State.{
  Opened, refused, without_metadata, opened, Upload, one, several, ClientType-cases, show, spawn,
}
use rstr.App.Dispatch.{
  cannot_be_opened, failed, name_of, upload_opened, listed, upload, list_paths, upload_multiple,
}
use rstr.App.Soundness.{Keeps, then-Keeps}

module _ (P : Platform) (nothing : P.bincode.decode [] ≡ none) where
  pub show-Keeps : (event : ProcessingEvent P.floats.F32) → Keeps P nothing (show P event)
  unfolding show
  show-Keeps event app v = elim (Bool-cases app.window_open) [
    | inl there ↦ rw there v
    | inr gone ↦ rw gone v
  ]

  failed-Keeps : (local_path : Text) → Keeps P nothing (failed P local_path)
  unfolding failed
  failed-Keeps local_path app v = elim (Option-cases (to_str local_path)) [
    | inl strange ↦ rw strange v
    | inr (path, readable) ↦
        rw readable
          (show-Keeps (ProcessingEvent.metadata_creation_failed (cannot_be_opened path)) app v)
  ]

  name_of-Keeps : (local_path : Text) → Keeps P nothing (name_of P local_path)
  unfolding name_of
  name_of-Keeps local_path app v = elim (Option-cases (path_file_name local_path)) [
    | inl nameless ↦ rw nameless v
    | inr (name, there) ↦ elim (Option-cases (to_str name)) [
      | inl strange ↦ rw there (rw strange v)
      | inr (n, readable) ↦ rw there (rw readable v)
    ]
  ]

  listed-Keeps :
      (local_path name : Text) (meta_files : List MetaFile) (o : Opened)
      → Keeps P nothing (listed P local_path name meta_files o)
  unfolding listed
  listed-Keeps local_path name meta_files refused =
      then-Keeps P nothing (failed P local_path) (λ _ app. (ok meta_files, app))
        (failed-Keeps local_path) (λ _ app v. v)
  listed-Keeps local_path name meta_files without_metadata = λ app v. v
  listed-Keeps local_path name meta_files (opened size) = λ app v. v

  list_paths-Keeps :
      (local_paths : List Text) (meta_files : List MetaFile)
      → Keeps P nothing (list_paths P local_paths meta_files)
  unfolding list_paths
  list_paths-Keeps [] meta_files app v = v
  list_paths-Keeps (local_path ∷ local_paths) meta_files app v =
      then-Keeps P nothing (name_of P local_path)
        (λ name. (λ app. listed P local_path name meta_files (app.opens local_path) app) >>= λ more.
          list_paths P local_paths more)
        (name_of-Keeps local_path)
        (λ name.
          then-Keeps P nothing
            (λ app. listed P local_path name meta_files (app.opens local_path) app)
            (λ more. list_paths P local_paths more)
            (λ app. listed-Keeps local_path name meta_files (app.opens local_path) app)
            (λ more. list_paths-Keeps local_paths more))
        app v

  spawn-Keeps : (u : Upload) → Keeps P nothing (spawn P u)
  unfolding spawn
  spawn-Keeps u app v = v

  upload_opened-Keeps :
      (local_path remote_path : Text) (o : Opened)
      → Keeps P nothing (upload_opened P local_path remote_path o)
  unfolding upload_opened
  upload_opened-Keeps local_path remote_path refused app v = failed-Keeps local_path app v
  upload_opened-Keeps local_path remote_path without_metadata app v = v
  upload_opened-Keeps local_path remote_path (opened size) app v =
      then-Keeps P nothing (name_of P local_path)
        (λ name.
          show P (
            ProcessingEvent.metadata_creation_started
              (record { name = name; formatted_size = P.format_size size }))
          >> spawn P (one local_path remote_path))
        (name_of-Keeps local_path)
        (λ name.
          then-Keeps P nothing
            (show P (
              ProcessingEvent.metadata_creation_started
                (record { name = name; formatted_size = P.format_size size })))
            (λ _. spawn P (one local_path remote_path)) (show-Keeps _)
            (λ _. spawn-Keeps (one local_path remote_path)))
        app v

  pub upload-Keeps :
      (local_path remote_path : Text) → Keeps P nothing (upload P local_path remote_path)
  unfolding upload
  upload-Keeps local_path remote_path app v = elim (ClientType-cases P app.client) [
    | inl nobody ↦ rw (nobody, upload) v
    | inr (inl (r, receiving)) ↦ rw (receiving, upload) v
    | inr (inr (s, sending)) ↦
        rw (sending, upload)
          (upload_opened-Keeps local_path remote_path (app.opens local_path) app v)
  ]

  pub upload_multiple-Keeps :
      (remote_dir : Text) (local_paths : List Text)
      → Keeps P nothing (upload_multiple P remote_dir local_paths)
  unfolding upload_multiple
  upload_multiple-Keeps remote_dir local_paths app v = elim (ClientType-cases P app.client) [
    | inl nobody ↦ rw (nobody, upload_multiple) v
    | inr (inl (r, receiving)) ↦ rw (receiving, upload_multiple) v
    | inr (inr (s, sending)) ↦
        rw (sending, upload_multiple)
          (then-Keeps P nothing (list_paths P local_paths [])
            (λ meta_files.
              show P (ProcessingEvent.multiple_metadata_creation_started meta_files)
              >> spawn P (several remote_dir local_paths))
            (list_paths-Keeps local_paths [])
            (λ meta_files.
              then-Keeps P nothing
                (show P (ProcessingEvent.multiple_metadata_creation_started meta_files))
                (λ _. spawn P (several remote_dir local_paths)) (show-Keeps _)
                (λ _. spawn-Keeps (several remote_dir local_paths)))
            app v)
  ]
