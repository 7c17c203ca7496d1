-- ===== src/Console/Hops/Heard.antt =====
-- Which nodes of the mesh are candidates.
use mathlib.Core.Path.{subst}
use mathlib.Core.Option.{none-ne-some, some-injective}
use meshonator.Base.{
  sym, ap, ◌∙◌, ◌≡◌, refl, String, Option, none, some, ◌∷◌, Option-cases, Bool-cases, inl, inr,
  arith, ◌⊎◌,
}
use meshonator.Base.Int.{ℤ, ◌≤ℤ◌, int_eq, ltb_ℤ}
use meshonator.Base.Member.{In}
use meshonator.Console.Hops.{Candidate, within, hops_of, candidate, candidates_of}
use meshonator.Json.{Value, as_int, null, bool, int, float, str, obj, arr, Fields, end, field, get}

-- the mesh has a node with this key and this dict
abbrev Listed : String → Fields → Fields → Type 0
Listed k p end = ⊥
Listed k p (field j (obj q) nodes) = ((k ≡ j) × (p ≡ q)) ⊎ Listed k p nodes
Listed k p (field j v nodes) = Listed k p nodes

-- a node that is so listed, with an int for its hops that is at most the bound
abbrev pub Heard : ℤ → Fields → String → Fields → ℤ → Type 0
Heard max_hops nodes k p z =
    Listed k p nodes
    × (v : Value) × (get "hopsAway" p ≡ some v)
    × (as_int v ≡ some z)
    × (z ≤ℤ max_hops)

within-some : (max_hops z : ℤ) → z ≤ℤ max_hops → within max_hops (some z) ≡ some z
within-some max_hops z h = ground arith

pub hops-within :
    (max_hops z : ℤ) (p : Fields) (v : Value)
    → get "hopsAway" p ≡ some v
    → as_int v ≡ some z
    → z ≤ℤ max_hops
    → within max_hops (hops_of (get "hopsAway" p)) ≡ some z
hops-within max_hops z p v e h le = rw (e, h) (within-some max_hops z le)

pub Heard-candidates_of :
    (max_hops z : ℤ) (k : String) (p : Fields) (nodes : Fields)
    → Listed k p nodes
    → within max_hops (hops_of (get "hopsAway" p)) ≡ some z
    → In (candidate k p z) (candidates_of max_hops nodes)
unfolding candidates_of
Heard-candidates_of max_hops z k p end h e = h
Heard-candidates_of max_hops z k p (field j (obj q) nodes) (inl (same_key, same_dict)) e =
    rw (same_key, ← same_dict) (rw (e, In, candidates_of) (inl refl))
Heard-candidates_of max_hops z k p (field j (obj q) nodes) (inr h) e =
    elim (Option-cases (within max_hops (hops_of (get "hopsAway" q)))) [
      | inl none_here ↦
          rw (none_here, In, candidates_of) (Heard-candidates_of max_hops z k p nodes h e)
      | inr (y, here) ↦
          rw (here, In, candidates_of) (inr (Heard-candidates_of max_hops z k p nodes h e))
    ]
Heard-candidates_of max_hops z k p (field j null nodes) h e =
    Heard-candidates_of max_hops z k p nodes h e
Heard-candidates_of max_hops z k p (field j (bool b) nodes) h e =
    Heard-candidates_of max_hops z k p nodes h e
Heard-candidates_of max_hops z k p (field j (int i) nodes) h e =
    Heard-candidates_of max_hops z k p nodes h e
Heard-candidates_of max_hops z k p (field j (float m i) nodes) h e =
    Heard-candidates_of max_hops z k p nodes h e
Heard-candidates_of max_hops z k p (field j (str s) nodes) h e =
    Heard-candidates_of max_hops z k p nodes h e
Heard-candidates_of max_hops z k p (field j (arr xs) nodes) h e =
    Heard-candidates_of max_hops z k p nodes h e

within-inv : (max_hops y z : ℤ) → within max_hops (some y) ≡ some z → (y ≡ z) × (z ≤ℤ max_hops)
within-inv max_hops y z h = elim (Bool-cases (ltb_ℤ max_hops y)) [
  | inl far ↦ absurd (none-ne-some z (sym (rw far refl) ∙ h))
  | inr near ↦
      let same_hops : y ≡ z = some-injective y z (sym (rw near refl) ∙ h) in
      (same_hops, ground arith)
]

hops-inv :
    (max_hops z : ℤ) (o : Option Value)
    → within max_hops (hops_of o) ≡ some z
    → (v : Value) × (o ≡ some v) × (as_int v ≡ some z) × (z ≤ℤ max_hops)
hops-inv max_hops z none h = cc
hops-inv max_hops z (some v) h = elim (Option-cases (as_int v)) [
  | inl e ↦ absurd (none-ne-some z (ap (within max_hops) (sym e) ∙ h))
  | inr (y, e) ↦
      let (same_hops, le) = within-inv max_hops y z (ap (within max_hops) (sym e) ∙ h) in
      (v, refl, e ∙ ap some same_hops, le)
]

-- what a candidate was found as
abbrev pub Found : ℤ → Fields → Candidate → Type 0
Found max_hops nodes c =
    (k : String) × (p : Fields) × (z : ℤ) × Heard max_hops nodes k p z × (c ≡ candidate k p z)

Found-obj :
    (max_hops : ℤ) (j : String) (q nodes : Fields) (c : Candidate)
    → Found max_hops nodes c
    → Found max_hops (field j (obj q) nodes) c
Found-obj max_hops j q nodes c (k, p, z, heard, e) =
    let (listed, v, hops, whole, le) = heard in (k, p, z, (inr listed, v, hops, whole, le), e)

Found-candidates_of :
    (max_hops : ℤ) (j : String) (q nodes : Fields) (c : Candidate)
    → (In c (candidates_of max_hops nodes) → Found max_hops nodes c)
    → (within max_hops (hops_of (get "hopsAway" q)) ≡ none)
      ⊎ ((z : ℤ) × (within max_hops (hops_of (get "hopsAway" q)) ≡ some z))
    → In c (candidates_of max_hops (field j (obj q) nodes))
    → Found max_hops (field j (obj q) nodes) c
unfolding candidates_of
Found-candidates_of max_hops j q nodes c found (inl e) h = Found-obj max_hops j q nodes c (
    found (
      subst
        (λ o. In c (elim o [
          | none ↦ candidates_of max_hops nodes
          | some z ↦ candidate j q z ∷ candidates_of max_hops nodes
        ]))
        e h))
Found-candidates_of max_hops j q nodes c found (inr (z, e)) h =
    let m : In c (candidate j q z ∷ candidates_of max_hops nodes) =
      subst
        (λ o. In c (elim o [
          | none ↦ candidates_of max_hops nodes
          | some y ↦ candidate j q y ∷ candidates_of max_hops nodes
        ]))
        e h in
    elim m [
      | inl here ↦
          let (v, hops, whole, le) = hops-inv max_hops z (get "hopsAway" q) e in
          (j, q, z, (inl (refl, refl), v, hops, whole, le), here)
      | inr later ↦ Found-obj max_hops j q nodes c (found later)
    ]

pub Heard_of_candidate :
    (max_hops : ℤ) (c : Candidate) (nodes : Fields)
    → In c (candidates_of max_hops nodes)
    → Found max_hops nodes c
unfolding candidates_of
Heard_of_candidate max_hops c end h = elim h [ ]
Heard_of_candidate max_hops c (field j (obj q) nodes) h =
    Found-candidates_of max_hops j q nodes c (Heard_of_candidate max_hops c nodes)
      (Option-cases (within max_hops (hops_of (get "hopsAway" q)))) h
Heard_of_candidate max_hops c (field j null nodes) h = Heard_of_candidate max_hops c nodes h
Heard_of_candidate max_hops c (field j (bool b) nodes) h = Heard_of_candidate max_hops c nodes h
Heard_of_candidate max_hops c (field j (int i) nodes) h = Heard_of_candidate max_hops c nodes h
Heard_of_candidate max_hops c (field j (float m i) nodes) h = Heard_of_candidate max_hops c nodes h
Heard_of_candidate max_hops c (field j (str s) nodes) h = Heard_of_candidate max_hops c nodes h
Heard_of_candidate max_hops c (field j (arr xs) nodes) h = Heard_of_candidate max_hops c nodes h
