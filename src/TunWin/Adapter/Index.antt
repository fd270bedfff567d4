-- ===== src/TunWin/Adapter/Index.antt =====
-- src/TunWin.cpp: how the search of `getAdapterIndex` ends.
use Prim.Native.String.{String}
use text.Mathlib.Text.{◌==◌}
use lib_tox_tun.Base.{
  ℕ, ◌+◌, ◌≡◌, refl, Option, none, some, List, [], ◌∷◌, Option-cases, Bool-cases, ◌⊎◌, inl, inr,
}
use lib_tox_tun.Errors.{ToxTunError, thrown, Result, ok, err}
use lib_tox_tun.TunWin.{TunWin}
use lib_tox_tun.TunWin.Adapter.{AdapterApi, index_of, listed, get_adapter_index}

-- The index was found, or the search threw an error of the library.
abbrev pub FoundOrThrown : Result ℕ → Type 0
FoundOrThrown r = ((index : ℕ) × (r ≡ ok index)) ⊎ ((e : ToxTunError) × (r ≡ err (thrown e)))

index_of-FoundOrThrown :
    (api : AdapterApi) (guid : String) (infos : List (String × ℕ))
    → FoundOrThrown (index_of api guid infos)
index_of-FoundOrThrown api guid [] = inr (_, refl)
index_of-FoundOrThrown api guid ((name, index) ∷ infos) = elim (Bool-cases (guid == name)) [
  | inl same ↦ inl (index, rw same refl)
  | inr differs ↦ rw differs (index_of-FoundOrThrown api guid infos)
]

listed-FoundOrThrown :
    (api : AdapterApi) (guid : String) (infos : Option (List (String × ℕ)))
    → FoundOrThrown (listed api guid infos)
listed-FoundOrThrown api guid none = inr (_, refl)
listed-FoundOrThrown api guid (some infos) = index_of-FoundOrThrown api guid infos

pub get_adapter_index-FoundOrThrown :
    (api : AdapterApi) (t : TunWin) → FoundOrThrown (get_adapter_index api t).0
unfolding get_adapter_index
get_adapter_index-FoundOrThrown api t = elim (Option-cases (api.adapter_index t.clock t.dev_guid)) [
  | inl unknown ↦ elim (Bool-cases (api.size_known (t.clock + 1))) [
    | inl sized ↦
        rw (unknown, sized)
          (listed-FoundOrThrown api t.dev_guid (api.adapter_names (t.clock + 1 + 1)))
    | inr not_sized ↦ rw (unknown, not_sized) (inr (_, refl))
  ]
  | inr (index, known) ↦ rw known (inl (index, refl))
]
