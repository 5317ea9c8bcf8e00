-- ===== src/Workflow/Process.antt =====
-- How an input file is processed, integration/models/sale_integration_file.py. The store's adapter
-- is a parameter: what it answers for an order, how JSON is read, and how an order is parsed.
use jean_fourche.Base.{
  String, Bool, true, false, not, ◌≡◌, Option, none, some, List, [], map, if◌then◌else◌, arith,
}
use jean_fourche.Base.Result.{Result, ok, err}
use jean_fourche.Workflow.File.{
  FileState, InputFile, action_process, action_create_order, unmark_for_update,
}
use jean_fourche.Workflow.Pipeline.{Task, Error, validation_error, is_pipeline_done}

-- The jobs of a file: `run_current_pipeline` and `create_order_from_input`.
pub data FileJob : Type 0 where
  run_current_pipeline create_order_from_input : FileJob

abbrev pub is_in_work : FileState → Bool
is_in_work FileState.create_order = true
is_in_work FileState.workflow_process = true
is_in_work _ = false

-- `_has_error`, with the tasks of the pipeline of the order, if it has one.
unfoldable pub has_error : Option (List Task) → InputFile → Bool
unfolding is_pipeline_done
has_error pipeline f =
    if not (is_in_work f.state)
    then false
    else if not f.has_order
    then true
    else elim pipeline [ none ↦ true | some ts ↦ not (is_pipeline_done ts) ]

-- The file as it is written, and the job that is delayed.
unfoldable pub process : InputFile → InputFile × FileJob
unfolding action_process action_create_order
process f =
    if f.has_order
    then (action_process f, run_current_pipeline)
    else (action_create_order f, create_order_from_input)

-- `process_all`
unfoldable pub process_all : List InputFile → List (InputFile × FileJob)
unfolding process
process_all fs = map process fs

-- `create`, by whether the context skips the processing.
unfoldable pub create : Bool → List InputFile → List InputFile × List FileJob
unfolding process
create skip_create_order_from_input fs =
    if skip_create_order_from_input
    then (fs, [])
    else (map (λ f. (process f).0) fs, map (λ f. (process f).1) fs)

-- `receive_order` is what the store answers for the order of the file; `to_dict` reads the text, or the
-- attached file where the text is blank, and is none where that is no JSON object, or an empty one. Its
-- errors are one error here.
module _ {J D : Type 0} (receive_order : Option String) (to_dict : String → Option J)
    (parse_order : J → D) where
  unfoldable pub update_from_external : InputFile → Option InputFile
  update_from_external f = elim receive_order [
    | none ↦ none
    | some text ↦ some (record f { raw_data = text })
  ]

  abbrev pub parse_payload : InputFile → Result Error (InputFile × D)
  parse_payload f = elim (to_dict f.raw_data) [
    | none ↦ err validation_error
    | some payload ↦ ok (f, parse_order payload)
  ]

  -- The file as it is written, and the data of its order.
  unfoldable pub parse : InputFile → Result Error (InputFile × D)
  unfolding update_from_external
  parse f =
      if f.update_required
      then elim (update_from_external f) [
        | none ↦ err validation_error
        | some f' ↦ parse_payload f'
      ]
      else parse_payload f

  -- A file whose order is there is processed with the data that it has, even if it is marked for
  -- an update: the mark is taken away before the job runs, and the job does not ask the store.
  pub parse-process :
      (f : InputFile) → f.has_order ≡ true → parse (process f).0 ≡ parse_payload (process f).0
  unfolding parse process action_process unmark_for_update
  parse-process f h = ground arith

  -- A file that has no order keeps the mark: if it is marked for an update, and the store answers
  -- with an order that can be read, then what the job parses is that answer, and the file keeps
  -- it.
  pub parse-process_new :
      (f : InputFile) (text : String) (payload : J)
      → f.has_order ≡ false
      → f.update_required ≡ true
      → receive_order ≡ some text
      → to_dict text ≡ some payload
      → parse (process f).0 ≡ ok (record (process f).0 { raw_data = text }, parse_order payload)
  unfolding parse process action_create_order update_from_external
  parse-process_new f text payload h u r d = ground arith
