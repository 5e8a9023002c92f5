-- ===== src/Handler/Stores.antt =====
-- What EnqueueDownlink relies on of a store.
use ttn.Base.{◌≡◌, List, [], ◌∷◌, ◌++◌, String, ok}
use ttn.Handler.Types.{AppDownlink, Device, Store}

-- A store that answers, for a device with these identifiers: `Holds` says which messages the queue of
-- the device stands for, Set leaves the queue, and the three ways to put a message into it do so.
pub record Queues (store : Store) (app_id dev_id : String)
    (Holds : store.State → List AppDownlink → Type 0) : Type 0 where
  pub has_queue_ok : (s : store.State) → store.has_queue s app_id dev_id ≡ ok tt
  pub set-Holds :
      (s : store.State) (old dev : Device) (q : List AppDownlink)
      → Holds s q
      → ((store.set s old dev).0 ≡ ok tt) × Holds (store.set s old dev).1 q
  pub replace-Holds :
      (s : store.State) (m : AppDownlink) (q : List AppDownlink)
      → Holds s q
      → ((store.queue_replace s app_id dev_id m).0 ≡ ok tt)
        × Holds (store.queue_replace s app_id dev_id m).1 (m ∷ [])
  pub push_first-Holds :
      (s : store.State) (m : AppDownlink) (q : List AppDownlink)
      → Holds s q
      → ((store.queue_push_first s app_id dev_id m).0 ≡ ok tt)
        × Holds (store.queue_push_first s app_id dev_id m).1 (m ∷ q)
  pub push_last-Holds :
      (s : store.State) (m : AppDownlink) (q : List AppDownlink)
      → Holds s q
      → ((store.queue_push_last s app_id dev_id m).0 ≡ ok tt)
        × Holds (store.queue_push_last s app_id dev_id m).1 (q ++ (m ∷ []))
