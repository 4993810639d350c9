-- ===== src/LlamaServer/Managed.antt =====
-- The arguments of a profile never set what the worker manages.
use comrad.Prelude.{◌≡◌, refl, String, false, List, [], ◌∷◌, ◌++◌, none, ℕ, arith, All}
use comrad.Types.{WorkloadProfile}
use comrad.LlamaServer.{
  llama_server_arg_name, is_managed_llama_server_arg, validate_llama_server_profile_args,
  ModelSupportArtifact, own_args, llama_server_args, args_or_error,
}

pub llama_server_args_of_valid :
    (profile : WorkloadProfile) (model : String) (support : List ModelSupportArtifact) (port : ℕ)
    → validate_llama_server_profile_args profile.runtime.llama_cpp.args ≡ none
    → llama_server_args profile model support port
      ≡ (own_args profile model support port ++ profile.runtime.llama_cpp.args, none)
unfolding llama_server_args args_or_error
llama_server_args_of_valid profile model support port h = rw h refl

-- No argument of the list is one that COMRAD manages.
abbrev pub Unmanaged : List String → Type 0
Unmanaged args = All (λ a. is_managed_llama_server_arg (llama_server_arg_name a) ≡ false) args

pub validate-Unmanaged :
    (args : List String) → validate_llama_server_profile_args args ≡ none → Unmanaged args
unfolding validate_llama_server_profile_args
validate-Unmanaged [] h = tt
validate-Unmanaged (a ∷ args) h = ground (arith, h, validate-Unmanaged args)
