-- ===== src/Examples/Redo.antt =====
-- Examples of the replay with handlers: a handler that collects the keys, and a corrupt file.
use custom_database.Base.{ℕ, ◌≡◌, refl, List, [], ◌∷◌, ◌++◌, none, some, arith}
use custom_database.Wal.{WalManager, open_wal, sync}
use custom_database.Wal.Journal.{Call, run}
use custom_database.Wal.Replay.{replay}
use custom_database.Wal.Redo.{RedoHandlers, Reader, replay_redo}
use custom_database.Wal.Handlers.{replay_redo-total}
use custom_database.Wal.Redone.{ReadsPageId, redone, replay_redo-run}
use custom_database.Examples.{fields}
use custom_database.Examples.Log.{opened}

abbrev first : List ℕ → ℕ
first [] = 0
first (b ∷ bs) = b

abbrev reader : Reader ℕ
reader = record { read_page_id = first; read_key = first }

-- The payloads of the inserts.
abbrev collecting : RedoHandlers ℕ (List (List ℕ))
collecting = record {
  on_insert = some (λ page_id key payload s. s ++ payload ∷ []);
  on_delete = none;
  on_update = none;
}

abbrev calls : List (ℕ × Call ℕ)
calls = (7, Call.begins) ∷ (8, Call.inserts 1 2 30 (5 ∷ [])) ∷ (9, Call.commits 1) ∷ []

page_id_first : ReadsPageId fields reader 0 collecting
unfolding fields
page_id_first r = refl

replay_redo-run_example :
    let w = sync (run fields (open_wal [] 100) calls) in
    (w' : WalManager) × (replay_redo fields reader 0 collecting (open_wal w.wal_file 50) []
      ≡ some (w', redone fields reader 0 collecting 1 calls []))
unfolding fields
replay_redo-run_example =
    replay_redo-run fields reader 0 collecting page_id_first calls 100 50 []
      (tt, (omega arith, (tt, tt))) (omega arith)

replay_redo-total_example :
    (w' : WalManager) × (s' : List (List ℕ)) × (replay_redo fields reader 0 collecting opened []
      ≡ some (w', s'))
    × (replay fields 0 opened ≡ some w')
replay_redo-total_example = replay_redo-total fields reader 0 collecting opened []
