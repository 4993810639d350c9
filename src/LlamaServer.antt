-- ===== src/LlamaServer.antt =====
-- The arguments of a worker's llama-server: internal/comrad/worker_runtime.go and
-- worker_runtime_artifacts.go, with `isLlamaCppAdapter` of fit.go. What strings.Contains and
-- strings.HasSuffix say is computed from the first place of a text in another one.
pub mod Managed
use Prim.Native.Char.{Char, code}
use Prim.Native.String
use comrad.Prelude.{
  ℕ, String, Bool, true, false, not, ◌&&◌, ◌||◌, List, [], ◌∷◌, ◌++◌, Option, none, some, Int64,
  eqb, lt64, ◌==◌, if◌then◌else◌,
}
use comrad.Prelude.Texts.{to_lower, decimal}
use comrad.Prelude.Sets.{contains}
use comrad.Types.{WorkloadProfile, LlmProfile, Error, arg_is_managed}
use text.Mathlib.Text.{starts_with, find?}

-- `strings.Contains`.
unfoldable pub contains_text : String → String → Bool
contains_text s t = elim (find? s t) [ none ↦ false | some i ↦ true ]

unfoldable pub is_llama_cpp_adapter : String → Bool
is_llama_cpp_adapter adapter = contains_text (to_lower adapter) "llama.cpp"

-- The text before the first `=`, which is character 61.
unfoldable pub llama_server_arg_name : String → String
llama_server_arg_name String.[] = ""
llama_server_arg_name (String.◌∷◌ c arg) =
    let rest = llama_server_arg_name arg in if eqb (code c) 61 then "" else String.◌∷◌ c rest

abbrev pub managed_args : List String
managed_args =
    "--host" ∷ "--port" ∷ "--model" ∷ "-m" ∷ "--mmproj" ∷ "--ctx-size" ∷ "-c" ∷ "--api-key"
    ∷ "--api-key-file" ∷ "--ssl-key-file" ∷ "--ssl-cert-file" ∷ []

unfoldable pub is_managed_llama_server_arg : String → Bool
is_managed_llama_server_arg arg = contains managed_args arg

unfoldable pub validate_llama_server_profile_args : List String → Option Error
validate_llama_server_profile_args [] = none
validate_llama_server_profile_args (arg ∷ args) =
    let rest = validate_llama_server_profile_args args in
    let name = llama_server_arg_name arg in
    if is_managed_llama_server_arg name then some (arg_is_managed name) else rest

pub record ModelSupportArtifact : Type 0 where
  pub kind : String
  pub name : String
  pub path : String

unfoldable pub first_mmproj_path : List ModelSupportArtifact → String
first_mmproj_path [] = ""
first_mmproj_path (a ∷ support) =
    let rest = first_mmproj_path support in
    let value = to_lower (String.◌++◌ a.kind (String.◌++◌ " " a.name)) in
    if contains_text value "mmproj" then a.path else rest

unfoldable pub has_runtime_arg : List String → String → Bool
has_runtime_arg [] flag = false
has_runtime_arg (arg ∷ args) flag =
    let rest = has_runtime_arg args flag in
    if arg == flag || starts_with arg (String.◌++◌ flag "=") then true else rest

context_args : Option LlmProfile → List String
context_args none = []
context_args (some llm) =
    if lt64 0 llm.context_tokens then "--ctx-size" ∷ decimal llm.context_tokens ∷ [] else []

-- The arguments that the worker sets itself. The port is one that the system gave, not negative.
unfoldable pub own_args : WorkloadProfile → String → List ModelSupportArtifact → ℕ → List String
unfolding context_args
own_args profile model_path support port =
    let path = first_mmproj_path support in
    let projector =
      if not (path == "") && not (has_runtime_arg profile.runtime.llama_cpp.args "--mmproj")
      then "--mmproj" ∷ path ∷ []
      else [] in
    ("--host" ∷ "127.0.0.1" ∷ "--port" ∷ decimal port ∷ "--model" ∷ model_path ∷ [])
    ++ context_args profile.llm
    ++ projector

args_or_error : Option Error → List String → List String × Option Error
args_or_error none args = (args, none)
args_or_error (some e) args = ([], some e)

unfoldable pub llama_server_args :
    WorkloadProfile → String → List ModelSupportArtifact → ℕ → List String × Option Error
unfolding args_or_error
llama_server_args profile model_path support port =
    let profile_args = profile.runtime.llama_cpp.args in
    args_or_error (validate_llama_server_profile_args profile_args)
      (own_args profile model_path support port ++ profile_args)
