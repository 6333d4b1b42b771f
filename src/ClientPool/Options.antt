-- ===== src/ClientPool/Options.antt =====
-- The values that the options of src/ClientPool.cpp are set to, and what `config` saves of them.
use libmc.Prelude.{
  ℕ, ◌<◌, ◌≡◌, refl, sym, ap, ◌∙◌, subst, [], ◌∷◌, Option, some, get_elem?, inl, inr, Bool-cases,
  ◌==◌, arith,
}
use mathlib.Core.Option.{some-injective}
use libmc.Client.{ConfigOption}
use libmc.ClientPool.{save, option_number}
use libmc.ClientPool.Settings.{Fits, AllFit}

-- A value that `config` is called with: there is an initial client at least, and growth by one.
abbrev pub Allowed : ConfigOption → ℕ → Type 0
Allowed ConfigOption.cfg_initial_clients val = 0 < val
Allowed ConfigOption.cfg_max_growth val = 0 < val
Allowed opt val = Fits opt val

pub Allowed-Fits : (opt : ConfigOption) (val : ℕ) → Allowed opt val → Fits opt val
Allowed-Fits ConfigOption.cfg_poll_timeout val h = tt
Allowed-Fits ConfigOption.cfg_connect_timeout val h = tt
Allowed-Fits ConfigOption.cfg_retry_timeout val h = tt
Allowed-Fits ConfigOption.cfg_hash_function val h = h
Allowed-Fits ConfigOption.cfg_max_retries val h = tt
Allowed-Fits ConfigOption.cfg_set_failover val h = h
Allowed-Fits ConfigOption.cfg_initial_clients val h = tt
Allowed-Fits ConfigOption.cfg_max_clients val h = tt
Allowed-Fits ConfigOption.cfg_max_growth val h = tt

option_at : ℕ → Option ConfigOption
option_at n =
    get_elem?
      (ConfigOption.cfg_poll_timeout ∷ ConfigOption.cfg_connect_timeout
        ∷ ConfigOption.cfg_retry_timeout ∷ ConfigOption.cfg_hash_function
        ∷ ConfigOption.cfg_max_retries ∷ ConfigOption.cfg_set_failover
        ∷ ConfigOption.cfg_set_failover ∷ ConfigOption.cfg_initial_clients
        ∷ ConfigOption.cfg_max_clients ∷ ConfigOption.cfg_max_growth ∷ [])
      n

option_at-option_number : (opt : ConfigOption) → option_at (option_number opt) ≡ some opt
unfolding option_at option_number
option_at-option_number ConfigOption.cfg_poll_timeout = refl
option_at-option_number ConfigOption.cfg_connect_timeout = refl
option_at-option_number ConfigOption.cfg_retry_timeout = refl
option_at-option_number ConfigOption.cfg_hash_function = refl
option_at-option_number ConfigOption.cfg_max_retries = refl
option_at-option_number ConfigOption.cfg_set_failover = refl
option_at-option_number ConfigOption.cfg_initial_clients = refl
option_at-option_number ConfigOption.cfg_max_clients = refl
option_at-option_number ConfigOption.cfg_max_growth = refl

same_option : (o opt : ConfigOption) → option_number o ≡ option_number opt → opt ≡ o
same_option o opt e =
    some-injective _ _
      (sym (option_at-option_number opt) ∙ ap option_at (sym e) ∙ option_at-option_number o)

pub save-AllFit :
    (opt : ConfigOption) (val : ℕ) (saved : ConfigOption → Option ℕ)
    → Fits opt val
    → AllFit saved
    → AllFit (save opt val saved)
unfolding save
save-AllFit opt val saved h fit o v = elim (Bool-cases (option_number o == option_number opt)) [
  | inl same ↦ rw same (λ e.
      subst (λ x. Fits x v) (same_option o opt (ground arith))
        (subst (Fits opt) (some-injective val v e) h))
  | inr other ↦ rw other (λ e. fit o v e)
]
