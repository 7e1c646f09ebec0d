-- ===== src/Anki/Planner/Run.antt =====
-- planner/planner.go: Run.
pub mod Deletions
use imoogi_emacs.Prelude.{ℕ, Bool, false, List, [], ◌∷◌, ◌++◌, map}
use imoogi_emacs.Anki.Protocol.{Request}
use imoogi_emacs.Anki.Registry.{Registry, all}
use imoogi_emacs.Anki.Client.{History}
use imoogi_emacs.Anki.Planner.Runner.{Env, Runner}
use imoogi_emacs.Anki.Planner.Entries.{Report, process_entries}
use imoogi_emacs.Anki.Planner.Orphans.{
  reconcile_source_paths, compute_candidates, confirm_and_delete,
}

-- the settings that Run and Migrate copy out of the request
abbrev pub configured : Env → Request → Env
configured env req = record env {
  default_deck = req.config.default_deck;
  sync_root = env.expand_tilde req.config.sync_root;
}

-- the runner that Run and Migrate begin with
abbrev pub start : History → Registry → Runner
start history reg = record {
  history = history;
  reg = reg;
  uploaded = [];
  decks_loaded = false;
  known_decks = [];
  model_fields = [];
}

-- preRunIDs
unfoldable pub pre_run_ids : Registry → List ℕ
unfolding all
pre_run_ids reg = map (λ e. e.note_id) (all reg)

-- steps 10a, 10b and 11
unfoldable pub collect_orphans : Env → Request → List ℕ → Runner → Report × Runner
collect_orphans env req eligible r =
    let reg = reconcile_source_paths req.census r.reg in
    confirm_and_delete env (compute_candidates req.census reg req.config.exclude_patterns eligible)
      req.config.scan_complete (record r { reg = reg })

-- Run, from the requests already made and the registry as it was loaded
unfoldable pub run : Env → Request → History → Registry → Report × Runner
run given req history reg =
    let env = configured given req in
    let (first, r) = process_entries env req.entries req.entries (start history reg) in
    let (second, r') = collect_orphans env req (pre_run_ids reg) r in
    (
      record { results = first.results ++ second.results; errors = first.errors ++ second.errors },
      r',
    )
