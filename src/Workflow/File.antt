-- ===== src/Workflow/File.antt =====
-- The state of an input file, integration/models/sale_integration_file.py: what the workflow and
-- the buttons write. An operation on a recordset is one on a list.
use jean_fourche.Base.{Bool, true, false, not, ◌&&◌, List, map, String, if◌then◌else◌}

pub data FileState : Type 0 where
  draft create_order workflow_process done cancelled skipped unknown : FileState

pub record InputFile : Type 0 where
  pub state : FileState
  pub has_order : Bool
  pub update_required : Bool
  pub raw_data : String

abbrev pub is_cancellable : FileState → Bool
is_cancellable FileState.draft = true
is_cancellable FileState.unknown = true
is_cancellable _ = false

abbrev pub is_reopenable : FileState → Bool
is_reopenable FileState.cancelled = true
is_reopenable FileState.done = true
is_reopenable _ = false

abbrev pub is_cancelled : FileState → Bool
is_cancelled FileState.cancelled = true
is_cancelled _ = false

unfoldable pub unmark_for_update : InputFile → InputFile
unmark_for_update f = record f { update_required = false }

unfoldable pub action_done : InputFile → InputFile
unfolding unmark_for_update
action_done f = record (unmark_for_update f) { state = FileState.done }

unfoldable pub action_create_order : InputFile → InputFile
action_create_order f = record f { state = FileState.create_order }

unfoldable pub action_process : InputFile → InputFile
unfolding unmark_for_update
action_process f = record (unmark_for_update f) { state = FileState.workflow_process }

unfoldable pub action_cancel : List InputFile → List InputFile
action_cancel fs =
    map (λ f. if is_cancellable f.state then record f { state = FileState.cancelled } else f) fs

unfoldable pub action_draft : List InputFile → List InputFile
action_draft fs =
    map
      (λ f.
        if is_reopenable f.state && not f.has_order
        then record f { state = FileState.draft }
        else f)
      fs

unfoldable pub mark_for_update : List InputFile → List InputFile
mark_for_update fs =
    map (λ f. if is_cancelled f.state then f else record f { update_required = true }) fs
