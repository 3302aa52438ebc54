-- ===== src/Case/Trace.antt =====
-- What holds of a Case from its creation through every sequence of method calls: `Case` of
-- backend/app/modules/case/domain/case.py.
use smart_ao_v.Base.{
  ℕ, ◌≡◌, refl, ◌↔◌, ◌∙◌, true, false, String, List, [], ◌∷◌, ◌++◌, arith, Option, none, some,
  is_blank, strip, is_some, eq_iff, strip-strip,
}
use smart_ao_v.Base.Result.{ok}
use smart_ao_v.Case.{Case, CaseEvent, case_created, active}
use smart_ao_v.Case.Scope.{
  AggregateReference, CaseScope, CaseOrigin, is_manual, has_text, validate_scope, validate_origin,
}
use smart_ao_v.Case.Creation.{create, needs_consultation}
use smart_ao_v.Case.Linking.{register_consultation_link, clear_pending_events}
use smart_ao_v.Case.Perimeter.{IsExplicit, validate_scope-IsExplicit}

-- A reference that a Case of this tenant may hold to a consultation.
abbrev pub IsLinkable : ℕ → Option AggregateReference → Type 0
IsLinkable tenant none = Unit
IsLinkable tenant (some r) = (r.tenant_id ≡ tenant) × (r.aggregate_type ≡ "CONSULTATION")

pub record IsSound (c : Case) : Type 0 where
  pub titled : is_blank c.title ≡ false
  pub described : is_blank c.object_description ≡ false
  pub explicit : IsExplicit c.scope
  pub justified : is_manual c.origin.kind ≡ true → has_text c.origin.rationale ≡ true
  pub linkable : IsLinkable c.tenant_id c.consultation_reference
  pub originated : needs_consultation c.origin.kind ≡ true → is_some c.consultation_reference ≡ true

-- What the checks of `create` have established when it returns.
create-eq-ok :
    (id tenant : ℕ) (title description : String) (scope : CaseScope) (origin : CaseOrigin)
    (reference : Option AggregateReference) {c : Case}
    → create id tenant title description scope origin reference ≡ ok c
    → (is_blank title ≡ false)
      × (is_blank description ≡ false)
      × (validate_scope scope ≡ ok tt)
      × (validate_origin origin ≡ ok tt)
      × IsLinkable tenant reference
      × (needs_consultation origin.kind ≡ true → is_some reference ≡ true)
unfolding create
create-eq-ok id tenant title description scope origin none h = ground arith
create-eq-ok id tenant title description scope origin (some r) h =
    ground (arith, eq_iff r.aggregate_type "CONSULTATION")

created-fields :
    (id tenant : ℕ) (title description : String) (scope : CaseScope) (origin : CaseOrigin)
    (reference : Option AggregateReference) {c : Case}
    → create id tenant title description scope origin reference ≡ ok c
    → (c.title ≡ strip title)
      × (c.object_description ≡ strip description)
      × (c.scope ≡ scope)
      × (c.origin ≡ origin)
      × (c.consultation_reference ≡ reference)
      × (c.tenant_id ≡ tenant)
      × (c.lifecycle ≡ active)
      × (c.aggregate_revision ≡ 0)
      × (c.pending_events ≡ case_created id tenant ∷ [])
unfolding create
created-fields id tenant title description scope origin reference h = ground arith

origin-justified :
    (o : CaseOrigin)
    → validate_origin o ≡ ok tt
    → is_manual o.kind ≡ true
    → has_text o.rationale ≡ true
unfolding validate_origin
origin-justified o h k = ground arith

-- A created Case is sound, active, at revision 0, and has announced its creation once.
pub case_create-IsSound :
    (id tenant : ℕ) (title description : String) (scope : CaseScope) (origin : CaseOrigin)
    (reference : Option AggregateReference) {c : Case}
    → create id tenant title description scope origin reference ≡ ok c
    → IsSound c
      × (c.tenant_id ≡ tenant)
      × (c.lifecycle ≡ active)
      × (c.aggregate_revision ≡ 0)
      × (c.pending_events ≡ case_created id tenant ∷ [])
case_create-IsSound id tenant title description scope origin reference h =
    let (t, d, s, o, r, k) = create-eq-ok id tenant title description scope origin reference h in
    let (ft, fd, fs, fo, fr, fn, fl, fv, fe) =
      created-fields id tenant title description scope origin reference h in
    (
      record {
        titled = rw ft (rw (strip-strip title) t);
        described = rw fd (rw (strip-strip description) d);
        explicit = rw fs ((validate_scope-IsExplicit scope).0 s);
        justified = rw fo (origin-justified origin o);
        linkable = rw (fr, fn) r;
        originated = rw (fr, fo) k;
      },
      fn,
      fl,
      fv,
      fe,
    )

-- A link is accepted exactly for an active Case and a consultation of its own tenant.
pub link_accepted_iff :
    (r : AggregateReference) (c : Case)
    → ((register_consultation_link r c).0 ≡ ok tt)
      ↔ ((c.lifecycle ≡ active) × (r.aggregate_type ≡ "CONSULTATION") × (r.tenant_id ≡ c.tenant_id))
unfolding register_consultation_link
link_accepted_iff r c = ground (arith, eq_iff r.aggregate_type "CONSULTATION")

link-IsSound :
    (r : AggregateReference) (c : Case) → IsSound c → IsSound (register_consultation_link r c).1
unfolding register_consultation_link
link-IsSound r c s = ground (arith, eq_iff r.aggregate_type "CONSULTATION")

pub data Call : Type 0 where
  link : AggregateReference → Call
  drain : Call

-- One call, and the events that it hands to its caller.
unfoldable pub call : Call → Case → List CaseEvent × Case
call (link r) c = ([], (register_consultation_link r c).1)
call drain c = (c.pending_events, (clear_pending_events c).1)

-- All the events that the calls hand out, in order, and the Case at the end.
unfoldable pub run : List Call → Case → List CaseEvent × Case
unfolding call
run [] c = ([], c)
run (m ∷ ms) c = let (out, c') = call m c in let (rest, c'') = run ms c' in (out ++ rest, c'')

call-IsSound :
    (m : Call) (c : Case)
    → IsSound c
    → IsSound (call m c).1
      × ((call m c).1.tenant_id ≡ c.tenant_id)
      × ((call m c).1.scope ≡ c.scope)
      × ((call m c).1.origin ≡ c.origin)
unfolding call register_consultation_link clear_pending_events
call-IsSound (link r) c s = (link-IsSound r c s, ground arith, ground arith, ground arith)
call-IsSound drain c s = (ground arith, refl, refl, refl)

-- Every sequence of calls keeps a sound Case sound (titled, described, on an explicit perimeter,
-- linked only within its tenant) and its tenant, perimeter and origin as they were.
pub case_run-IsSound :
    (ms : List Call) (c : Case)
    → IsSound c
    → IsSound (run ms c).1
      × ((run ms c).1.tenant_id ≡ c.tenant_id)
      × ((run ms c).1.scope ≡ c.scope)
      × ((run ms c).1.origin ≡ c.origin)
unfolding run
case_run-IsSound [] c s = (s, refl, refl, refl)
case_run-IsSound (m ∷ ms) c s =
    let (s', t, p, o) = call-IsSound m c s in
    let (s'', t', p', o') = case_run-IsSound ms (call m c).1 s' in (s'', t' ∙ t, p' ∙ p, o' ∙ o)
