-- ===== src/Sync/Total.antt =====
-- `SyncService.sync_all` always returns: what one endpoint raises is caught and reported.
use meshonator.Base.{
  suc, ◌≡◌, refl, ap, ◌∙◌, String, Bool, List, [], ◌∷◌, arith, length, filter_by, count_by,
}
use meshonator.Json.{Fields, bool, str, arr, end, field}
use meshonator.Db.{Time, ProviderEndpointModel}
use meshonator.Db.Session.{
  Result, Exn, Session, Exec, ok, raised, pure, now, catch, rollback, exn_text, ◌>>=◌, ◌>>◌,
  bind-ok,
}
use meshonator.Providers.{Registry}
use meshonator.Audit.{entry, log}
use meshonator.Inventory.Stale.{stale_mark}
use meshonator.Sync.{sync_items, EndpointSync, unsynced, sync_endpoint, sync_each, sync_all}

length-filter_by :
    {A : Type 0} (p : A → Bool) (xs : List A) → length (filter_by p xs) ≡ count_by p xs
length-filter_by p [] = refl
length-filter_by p (x ∷ xs) = ground (arith, length-filter_by p xs)

module _ {N C : Type 0} (registry : Registry N C) (version_hash : Fields → String)
    (isoformat : Time → String) (quick : Bool) where
  abbrev one : ProviderEndpointModel → Exec N EndpointSync
  one e =
      catch (sync_endpoint registry version_hash isoformat e.id quick)
        (λ x. rollback >> pure (unsynced e.endpoint (exn_text x)))

  caught :
      {A : Type 0} (m : Exec N A) (handler : Exn → Exec N A) (s : Session N)
      → ((x : Exn) (t : Session N) → (a : A) × ((handler x t).0 ≡ ok a))
      → (a : A) × ((catch m handler s).0 ≡ ok a)
  caught {A} m handler s h = go (m s).0 refl
    where
      go : (r : Result A) → (m s).0 ≡ r → (a : A) × ((catch m handler s).0 ≡ ok a)
      go (ok a) e = (a, rw (e, catch) refl)
      go (raised x) e = let (a, ha) = h x (m s).1 in (a, rw (e, catch) ha)

  sync_each-total :
      (es : List ProviderEndpointModel) (s : Session N)
      → (out : List EndpointSync) × ((sync_each registry version_hash isoformat quick es s).0
          ≡ ok out)
        × (length out ≡ length es)
  unfolding sync_each
  sync_each-total [] s = ([], refl, refl)
  sync_each-total (e ∷ es) s =
      let (a, ha) =
        caught (sync_endpoint registry version_hash isoformat e.id quick)
          (λ x. rollback >> pure (unsynced e.endpoint (exn_text x))) s
          (λ x t. (unsynced e.endpoint (exn_text x), refl)) in
      let (out, ho, l) = sync_each-total es (one e s).1 in
      let later : EndpointSync → Exec N (List EndpointSync) = λ first.
        sync_each registry version_hash isoformat quick es >>= λ rest. pure (first ∷ rest) in
      (
        a ∷ out,
        ap (λ o. o.0)
            (bind-ok (one e) later s a ha
              ∙ bind-ok (sync_each registry version_hash isoformat quick es)
                  (λ rest. pure (a ∷ rest)) (one e s).1 out ho),
        ap suc l,
      )

  -- what follows the loop
  abbrev finish : List EndpointSync → Exec N (List EndpointSync)
  finish out = do
    stale_mark 30
    at ← now
    log (
        entry "scheduler" "scheduler" "sync.all" (
          field "quick" (bool quick) (
            field "results" (arr (sync_items out)) (field "executed_at" (str (isoformat at)) end))))
    pure out

  -- `sync_all` returns whatever the providers do, with one answer for each reachable endpoint.
  pub sync_all-total :
      (s : Session N)
      → (out : List EndpointSync) × ((sync_all registry version_hash isoformat quick s).0 ≡ ok out)
        × (length out ≡ count_by (λ e. e.reachable) s.db.provider_endpoints)
  unfolding sync_all stale_mark log
  sync_all-total s =
      let es : List ProviderEndpointModel = filter_by (λ e. e.reachable) s.db.provider_endpoints in
      let (out, ho, l) = sync_each-total es s in
      (
        out,
        ap (λ o. o.0)
            (bind-ok (sync_each registry version_hash isoformat quick es) finish s out ho),
        l ∙ length-filter_by (λ e. e.reachable) s.db.provider_endpoints,
      )
