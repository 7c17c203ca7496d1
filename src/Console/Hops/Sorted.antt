-- ===== src/Console/Hops/Sorted.antt =====
-- The candidates that are returned, and their order.
use meshonator.Base.{
  ◌≡◌, refl, String, Bool, true, false, not, Option, none, some, List, [], ◌∷◌, All, count_by,
  Option-cases, inl, inr, arith, if◌then◌else◌, ◌==◌,
}
use meshonator.Base.Int.{ℤ, ◌≤ℤ◌, int_eq}
use meshonator.Base.Sort.{
  sort_by, insert_by, OrderedBy, sort_by-OrderedBy, sort_by-All, count_by-sort_by,
}
use meshonator.Base.Member.{In, In-sort_by, sort_by-In}
use meshonator.Console.Hops.{
  Candidate, name_of, value_lt, candidate_lt, inserted, insert_candidate, sort_candidates, within,
  hops_of, candidate, candidates_of, extract_zero_hop_candidates,
}
use meshonator.Db.Session.{ok}
use meshonator.Json.{null, bool, int, float, str, obj, arr, Fields, end, field, get, dict_or_empty}
use meshonator.Json.Equal.{same}
use meshonator.Console.Hops.Heard.{
  Heard, Found, Heard-candidates_of, hops-within, Heard_of_candidate,
}

-- the name that sorts it is a text
abbrev pub TextName : Candidate → Type 0
TextName c = (s : String) × (name_of c ≡ str s)

abbrev Some : Option Bool → Type 0
Some o = (r : Bool) × (o ≡ some r)

if-Some : (b : Bool) (o p : Option Bool) → Some o → Some p → Some (if b then o else p)
if-Some true o p h g = h
if-Some false o p h g = g

candidate_lt-texts : (a b : Candidate) → TextName a → TextName b → Some (candidate_lt a b)
unfolding candidate_lt value_lt
candidate_lt-texts a b (s, h) (t, g) =
    rw (h, g)
      (if-Some (a.hops_away == b.hops_away) _ _
        (if-Some (same (str s) (str t)) _ _ (false, refl) (_, refl)) (_, refl))

abbrev is_true : Option Bool → Bool
is_true none = false
is_true (some b) = b

-- the order of the sort, where no comparison raises
abbrev pub before : Candidate → Candidate → Bool
before x y = not (is_true (candidate_lt y x))

inserted_lem :
    (r : Bool) (here zs : List Candidate)
    → inserted (some r) here (ok zs) ≡ ok (if not r then here else zs)
inserted_lem true here zs = refl
inserted_lem false here zs = refl

insert_candidate_lem :
    (x : Candidate) (ys : List Candidate)
    → TextName x
    → All TextName ys
    → insert_candidate x ys ≡ ok (insert_by before x ys)
unfolding insert_candidate insert_by
insert_candidate_lem x [] hx h = refl
insert_candidate_lem x (y ∷ ys) hx (hy, h) =
    let (r, e) = candidate_lt-texts y x hy hx in
    rw (insert_candidate_lem x ys hx h, e) (inserted_lem r (x ∷ y ∷ ys) (y ∷ insert_by before x ys))

sort_candidates_lem :
    (xs : List Candidate) → All TextName xs → sort_candidates xs ≡ ok (sort_by before xs)
unfolding sort_candidates sort_by
sort_candidates_lem [] h = refl
sort_candidates_lem (x ∷ xs) (hx, h) =
    rw (sort_candidates_lem xs h)
      (insert_candidate_lem x (sort_by before xs) hx (sort_by-All before TextName xs h))

abbrev pub Nearer : Candidate → Candidate → Type 0
Nearer x y = x.hops_away ≤ℤ y.hops_away

before-true : (x y : Candidate) → before x y ≡ true → Nearer x y
unfolding candidate_lt
before-true x y h = ground arith

before-false : (x y : Candidate) → before x y ≡ false → Nearer y x
unfolding candidate_lt
before-false x y h = ground arith

within-le : (max_hops z : ℤ) (o : Option ℤ) → within max_hops o ≡ some z → z ≤ℤ max_hops
within-le max_hops z none h = cc
within-le max_hops z (some y) h = ground arith

Nearer-trans : (x y z : Candidate) → Nearer x y → Nearer y z → Nearer x z
Nearer-trans x y z h g = omega arith

abbrev pub Within : ℤ → Candidate → Type 0
Within max_hops c = c.hops_away ≤ℤ max_hops

candidates_of-Within :
    (max_hops : ℤ) (nodes : Fields) → All (Within max_hops) (candidates_of max_hops nodes)
unfolding candidates_of
candidates_of-Within max_hops end = tt
candidates_of-Within max_hops (field k (obj payload) nodes) =
    elim (Option-cases (within max_hops (hops_of (get "hopsAway" payload)))) [
      | inl e ↦ rw (e, All) (candidates_of-Within max_hops nodes)
      | inr (z, e) ↦
          rw (e, All)
            (
              within-le max_hops z (hops_of (get "hopsAway" payload)) e,
              candidates_of-Within max_hops nodes,
            )
    ]
candidates_of-Within max_hops (field k null nodes) = candidates_of-Within max_hops nodes
candidates_of-Within max_hops (field k (bool b) nodes) = candidates_of-Within max_hops nodes
candidates_of-Within max_hops (field k (int z) nodes) = candidates_of-Within max_hops nodes
candidates_of-Within max_hops (field k (float m j) nodes) = candidates_of-Within max_hops nodes
candidates_of-Within max_hops (field k (str s) nodes) = candidates_of-Within max_hops nodes
candidates_of-Within max_hops (field k (arr xs) nodes) = candidates_of-Within max_hops nodes

-- Where the names that sort them are texts, the candidates of a radio's metadata are returned: the
-- nearer ones first, none farther than the number of hops that is asked for, and each as often as
-- the walk over the nodes of the mesh finds it. Every node that the mesh lists as a dict with an
-- int for its hops, which is at most that number, is among them, with these hops, and each of them
-- is such a node.
pub extract_zero_hop_candidates_lem :
    (raw_metadata : Fields) (max_hops : ℤ)
    → All TextName (candidates_of max_hops (dict_or_empty (get "nodesInMesh" raw_metadata)))
    → (out : List Candidate) × (extract_zero_hop_candidates raw_metadata max_hops ≡ ok out)
      × OrderedBy Nearer out
      × All (Within max_hops) out
      × ((p : Candidate → Bool)
          → count_by p out
            ≡ count_by p (candidates_of max_hops (dict_or_empty (get "nodesInMesh" raw_metadata))))
      × ((node_id : String) (payload : Fields) (z : ℤ)
          → Heard max_hops (dict_or_empty (get "nodesInMesh" raw_metadata)) node_id payload z
          → In (candidate node_id payload z) out × ((candidate node_id payload z).hops_away ≡ z))
      × ((c : Candidate)
          → In c out
          → Found max_hops (dict_or_empty (get "nodesInMesh" raw_metadata)) c)
unfolding extract_zero_hop_candidates
extract_zero_hop_candidates_lem raw_metadata max_hops names =
    let nodes = dict_or_empty (get "nodesInMesh" raw_metadata) in
    let found = candidates_of max_hops nodes in
    (
      sort_by before found,
      sort_candidates_lem found names,
      sort_by-OrderedBy Nearer Nearer-trans before before-true before-false found,
      sort_by-All before (Within max_hops) found (candidates_of-Within max_hops nodes),
      λ p. count_by-sort_by before p found,
      λ k p z (listed, v, hops, whole, le). (
        sort_by-In before (candidate k p z) found (
            Heard-candidates_of max_hops z k p nodes listed
              (hops-within max_hops z p v hops whole le)),
        refl,
      ),
      λ c h. Heard_of_candidate max_hops c nodes (In-sort_by before c found h),
    )
