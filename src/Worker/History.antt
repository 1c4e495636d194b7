-- ===== src/Worker/History.antt =====
-- keystore/keymaster_worker.cpp: the histories of a worker, one request after the other in the order
-- of its queue.
use system_security.Base.{ℕ, ◌≡◌, refl, Option, none, List, [], arith}
use system_security.Base.Assoc.{find_key}
use system_security.Keymaster.{Authorizations}
use system_security.AuthTokens.{AuthTokenTable}
use system_security.Enforcement.{KeymasterEnforcement}
use system_security.Blob.{Blob}
use system_security.Blob.Stored.{Ciphers}
use system_security.Blob.Entry.{EntryFiles, Sets}
use system_security.Operations.{init, get_operations_for_token}
use system_security.Operations.Tracking.{init-Consistent}
use system_security.Worker.{Device, Worker, Moment, abort, worker_binder_died}
use system_security.Worker.Requests.{update, finish}
use system_security.Worker.Upgrade.{KeyDevice, CacheSteps}
use system_security.Worker.Begin.{BeginRequest}
use system_security.Worker.Start.{begin}
use system_security.Worker.Handles.{begun_count, ended_count, live_count, keyed}
use system_security.Worker.Ledger.{SoundWorker, abort-Sound, abort_all-Sound}
use system_security.Worker.Runs.{update-Sound, finish-Sound}
use system_security.Worker.Beginnings.{begin-Sound}

module _ {Param : Type 0} (sets : Sets Param) (km : Authorizations Param) (c : Ciphers) where
  -- A request: begin gets a token that is no operation's. Between the requests the key store may
  -- change what it shares with the worker.
  pub data Step : Worker Param → Worker Param → Type 0 where
    began :
        (d : Device Param) (kd : KeyDevice Param) (e : Moment) (r : BeginRequest Param)
        (s : CacheSteps) (key_blob char_blob : Option Blob) (files : EntryFiles) (w : Worker Param)
        → find_key r.operation_token w.operation_map.map ≡ none
        → Step w (begin sets km c s kd d e r key_blob char_blob files w).1
    updated :
        (d : Device Param) (e : Moment) (token : ℕ) (params : List Param) (input : List ℕ)
        (w : Worker Param)
        → Step w (update km d e w token params input).1
    finished :
        (d : Device Param) (e : Moment) (confirmation_param : List ℕ → Param) (token : ℕ)
        (params : List Param) (input signature entropy confirmation : List ℕ) (w : Worker Param)
        → Step w
            (finish km confirmation_param d e w token params input signature entropy confirmation).1
    aborted : (d : Device Param) (token : ℕ) (w : Worker Param) → Step w (abort d w token).1
    died : (d : Device Param) (who : ℕ) (w : Worker Param) → Step w (worker_binder_died d w who)
    shared :
        (table : AuthTokenTable) (policy : KeymasterEnforcement) (devices : List (ℕ × ℕ))
        (w : Worker Param)
        → Step w (record w {
          auth_token_table = table;
          enforcement = policy;
          operation_devices = devices;
        })

  -- The worker as it is constructed.
  unfoldable pub fresh : AuthTokenTable → KeymasterEnforcement → Worker Param
  fresh table policy = record {
    operation_map = init;
    auth_token_table = table;
    enforcement = policy;
    operation_devices = [];
    calls = [];
  }

  pub data Reachable : Worker Param → Type 0 where
    start :
        (table : AuthTokenTable) (policy : KeymasterEnforcement) → Reachable (fresh table policy)
    next : {w w' : Worker Param} → Reachable w → Step w w' → Reachable w'

  fresh-Sound :
      (table : AuthTokenTable) (policy : KeymasterEnforcement) → SoundWorker (fresh table policy)
  unfolding fresh init keyed begun_count ended_count live_count
  fresh-Sound table policy = record {
    consistent = init-Consistent;
    unique = λ t. omega arith;
    balanced = λ h. refl;
  }

  -- Each request keeps the account in order.
  pub Step-Sound : {w w' : Worker Param} → Step w w' → SoundWorker w → SoundWorker w'
  unfolding worker_binder_died
  Step-Sound (began d kd e r s key_blob char_blob files w unused) sound =
      begin-Sound d km c e r sets s kd key_blob char_blob files w unused sound
  Step-Sound (updated d e token params input w) sound =
      update-Sound d e km w token params input sound
  Step-Sound (finished d e param token params input signature entropy confirmation w) sound =
      finish-Sound d e km param w token params input signature entropy confirmation sound
  Step-Sound (aborted d token w) sound = abort-Sound d w token sound
  Step-Sound (died d who w) sound =
      abort_all-Sound d (get_operations_for_token w.operation_map who) w sound
  Step-Sound (shared table policy devices w) sound = sound

  -- In every state that a worker reaches by its requests, in whatever order and with whatever
  -- answers of the device, its containers are consistent, a token stands for one operation at most,
  -- and of each handle exactly as many operations were begun at the device as were aborted or
  -- finished there or are in the map.
  pub Reachable-Sound : {w : Worker Param} → Reachable w → SoundWorker w
  Reachable-Sound (start table policy) = fresh-Sound table policy
  Reachable-Sound (next r s) = Step-Sound s (Reachable-Sound r)
