-- ===== src/Replay/Diff/Items.antt =====
-- packages/common-schemas/src/common_schemas/replay_diff.py, and the helpers of
-- services/orchestrator/app/services/replay_diff_service.py that build one item.
use agentic_ai_platform.Prelude.{
  ℕ, ◌-◌, ◌≡◌, refl, Bool, true, false, not, ◌&&◌, Option, none, some, String, ◌<>◌, List, [], ◌∷◌,
  ◌++◌, nat_eq, string_eq, if◌then◌else◌, leb,
}
use agentic_ai_platform.Prelude.Text.{text_length}
use agentic_ai_platform.Value.{Value, null, Fields, contains, get}
use agentic_ai_platform.Value.Same.{equal}
use agentic_ai_platform.Env.{Env}
use agentic_ai_platform.Engine.Trace.{take_text}
use agentic_ai_platform.Replay.{ReplayMode}

pub data ReplayDiffSeverity : Type 0 where
  info warning significant : ReplayDiffSeverity

pub data ReplayDiffCategory : Type 0 where
  lineage execution_status input plan step model_reasoning tool_call policy validation result :
      ReplayDiffCategory

pub record ReplayDiffItem : Type 0 where
  pub category : ReplayDiffCategory
  pub severity : ReplayDiffSeverity
  pub title : String
  pub description : String
  pub source_value : Option String
  pub replay_value : Option String
  pub path : String
  pub related_step_id : Option ℕ
  pub related_tool_call_id : Option ℕ

pub record ReplayDiffSummary : Type 0 where
  pub source_execution_id : ℕ
  pub replay_execution_id : ℕ
  pub replay_mode : Option ReplayMode
  pub linked_to_source : Bool
  pub total_differences : ℕ
  pub significant_differences : ℕ
  pub items : List ReplayDiffItem

-- The `max_length` of a text field.
abbrev fits : ℕ → Option String → Bool
fits n none = true
fits n (some s) = leb (text_length s) n

-- What pydantic checks of an item.
unfoldable pub is_within_limits : ReplayDiffItem → Bool
is_within_limits i =
    leb (text_length i.title) 256
    && leb (text_length i.description) 2048
    && fits 512 i.source_value
    && fits 512 i.replay_value
    && leb (text_length i.path) 256

abbrev pub is_significant : ReplayDiffItem → Bool
is_significant i = elim i.severity [ ReplayDiffSeverity.significant ↦ true | _ ↦ false ]

-- An item that relates to no step and to no call.
abbrev pub item :
    ReplayDiffCategory
    → ReplayDiffSeverity
    → (title description : String) → (source_value replay_value : Option String) → (path : String)
    → ReplayDiffItem
item c s title description v w path = record {
  category = c;
  severity = s;
  title = title;
  description = description;
  source_value = v;
  replay_value = w;
  path = path;
  related_step_id = none;
  related_tool_call_id = none;
}

abbrev pub about_step : Option ℕ → ReplayDiffItem → ReplayDiffItem
about_step id i = record i { related_step_id = id }

abbrev pub about_call : ℕ → ReplayDiffItem → ReplayDiffItem
about_call id i = record i { related_tool_call_id = some id }

-- `if same is not true: out.append(item)`
abbrev pub unless : Bool → ReplayDiffItem → List ReplayDiffItem
unless true i = []
unless false i = i ∷ []

-- The text cut to `max_len` characters, the last three of them dots.
unfoldable pub cut : ℕ → String → String
cut max_len s = if leb (text_length s) max_len then s else take_text (max_len - 3) s <> "..."

nothing_added : (b : Bool) → ◌≡◌ {A = List ReplayDiffItem} ((if b then [] else []) ++ []) []
nothing_added true = refl
nothing_added false = refl

module _ (env : Env) where
  -- `_brief`
  unfoldable pub brief : ℕ → Value → Option String
  unfolding cut
  brief max_len null = none
  brief max_len v = some (cut max_len (env.json_dumps v))

  -- The body of the loop of `_compare_dict_fields`.
  unfoldable pub field_difference :
      Fields
      → Fields
      → ReplayDiffCategory
      → String
      → Option ℕ
      → ReplayDiffSeverity
      → String
      → List ReplayDiffItem
  unfolding brief
  field_difference source replay category path_prefix step_id severity key =
      if not (contains key source) && not (contains key replay)
      then []
      else unless (equal (get key source) (get key replay)) (
          about_step step_id (
            item category severity key
              ("Field '" <> (key <> ("' differs under " <> (path_prefix <> "."))))
              (brief 400 (get key source)) (brief 400 (get key replay))
              (path_prefix <> ("." <> key))))

  -- `_compare_dict_fields` of two dictionaries
  unfoldable pub compare_dict_fields :
      Fields
      → Fields
      → ReplayDiffCategory
      → String
      → List String
      → Option ℕ
      → ReplayDiffSeverity
      → List ReplayDiffItem
  unfolding field_difference
  compare_dict_fields source replay category path_prefix [] step_id severity = []
  compare_dict_fields source replay category path_prefix (key ∷ keys) step_id severity =
      field_difference source replay category path_prefix step_id severity key
      ++ compare_dict_fields source replay category path_prefix keys step_id severity
