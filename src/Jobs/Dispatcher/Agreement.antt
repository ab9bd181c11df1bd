-- ===== src/Jobs/Dispatcher/Agreement.antt =====
-- Which company a payload names, and whether it is the one of the envelope: what
-- `assertPayloadAgreesWithEnvelope` is for.
use main_acounting_system.Prelude.{
  ==_iff, Bool, Bool-cases, Option-cases, ap, arith, false, inl, inr, not, refl, some, sym, true,
  ◌∙◌, ◌≡◌, ◌⊎◌,
}
use main_acounting_system.Jobs.{JobEnvelope, Payload, PayloadField, absent, other, string}
use main_acounting_system.Jobs.Dispatcher.{
  canonical_tenant_id, is_same_tenant, named_tenant, payload_disagrees, payload_tenant_id,
}
use main_acounting_system.Prelude.Outcome.{Outcome-cases, ok}
use main_acounting_system.Primitives.EntityId.{EntityId, entity_id_from}
use main_acounting_system.Primitives.Text.{Text, trim}
use main_acounting_system.Primitives.Text.Laws.{has_visible, is_empty-trim, text_eq_sound}

-- The payload names a company: its tenant, or its company where it has no tenant, as a text that is not blank.
pub data Names (payload : Payload) : Text → Type 0 where
  by_tenant :
      (claimed : Text)
      → payload.tenant_id ≡ string claimed
      → has_visible claimed ≡ true
      → Names payload claimed
  by_company :
      (claimed : Text)
      → payload.tenant_id ≡ absent
      → payload.company_id ≡ string claimed
      → has_visible claimed ≡ true
      → Names payload claimed

-- Two texts that name one company: the same text but for white space around it, or one UUID however written.
abbrev pub SameTenant : Text → Text → Type 0
SameTenant a b =
    (trim a ≡ trim b)
    ⊎ ((id : EntityId) × (entity_id_from (trim a) ≡ ok id) × (entity_id_from (trim b) ≡ ok id))

named_tenant-some :
    (text : Text) {claimed : Text}
    → named_tenant (string text) ≡ some claimed
    → (claimed ≡ text) × (has_visible text ≡ true)
unfolding named_tenant
named_tenant-some text h = ground (arith, is_empty-trim text)

named_tenant-visible :
    (text : Text) → has_visible text ≡ true → named_tenant (string text) ≡ some text
unfolding named_tenant
named_tenant-visible text h = ground (arith, is_empty-trim text)

field_named :
    (field : PayloadField) {claimed : Text}
    → named_tenant field ≡ some claimed
    → (field ≡ string claimed) × (has_visible claimed ≡ true)
unfolding named_tenant
field_named absent h = cc
field_named other h = cc
field_named (string text) h =
    let (same, visible) = named_tenant-some text h in
    (ap string (sym same), ap has_visible same ∙ visible)

tenant_field-cases :
    (field : PayloadField)
    → (field ≡ absent) ⊎ (field ≡ other) ⊎ ((text : Text) × (field ≡ string text))
tenant_field-cases absent = inl refl
tenant_field-cases other = inr (inl refl)
tenant_field-cases (string text) = inr (inr (text, refl))

payload_tenant_id-Names :
    (payload : Payload) {claimed : Text}
    → payload_tenant_id payload ≡ some claimed
    → Names payload claimed
unfolding payload_tenant_id
payload_tenant_id-Names payload {claimed} h = elim (tenant_field-cases payload.tenant_id) [
  | inl e ↦
      let (is_string, visible) = field_named payload.company_id (rw e at h) in
      by_company claimed e is_string visible
  | inr (inl e) ↦ cc (rw e at h)
  | inr (inr (text, e)) ↦
      let (is_string, visible) = field_named (string text) (rw e at h) in
      by_tenant claimed (e ∙ is_string) visible
]

Names-payload_tenant_id :
    (payload : Payload) {claimed : Text}
    → Names payload claimed
    → payload_tenant_id payload ≡ some claimed
unfolding payload_tenant_id
Names-payload_tenant_id payload (by_tenant claimed e visible) =
    rw e (named_tenant-visible claimed visible)
Names-payload_tenant_id payload (by_company claimed e f visible) =
    rw (e, f) (named_tenant-visible claimed visible)

is_same_tenant_sound : (a b : Text) → is_same_tenant a b ≡ true → SameTenant a b
unfolding is_same_tenant canonical_tenant_id
is_same_tenant_sound a b h = elim (Outcome-cases (entity_id_from (trim a))) [
  | inl (id, e) ↦ elim (Outcome-cases (entity_id_from (trim b))) [
    | inl (id', f) ↦ inr (
      id,
      e,
      f ∙ ap ok (sym ((==_iff id id').0 (rw (e, f, is_same_tenant, canonical_tenant_id) at h))),
    )
    | inr (x, f) ↦ cc (rw (e, f, is_same_tenant, canonical_tenant_id) at h)
  ]
  | inr (x, e) ↦ elim (Outcome-cases (entity_id_from (trim b))) [
    | inl (id', f) ↦ cc (rw (e, f, is_same_tenant, canonical_tenant_id) at h)
    | inr (x', f) ↦
        inl (text_eq_sound (trim a) (trim b) (rw (e, f, is_same_tenant, canonical_tenant_id) at h))
  ]
]

-- The payload names no company, or the given one.
abbrev pub Agrees : Payload → Text → Type 0
Agrees payload company =
    (¬ ((claimed : Text) × Names payload claimed))
    ⊎ ((claimed : Text) × Names payload claimed × SameTenant claimed company)

pub payload_disagrees-Agrees :
    (envelope : JobEnvelope) {company : Text}
    → envelope.company_id ≡ some company
    → payload_disagrees envelope ≡ false
    → Agrees envelope.payload company
unfolding payload_disagrees
payload_disagrees-Agrees envelope {company} h d =
    elim (Option-cases (payload_tenant_id envelope.payload)) [
      | inl e ↦ inl (λ (claimed, n). cc (sym e ∙ Names-payload_tenant_id envelope.payload n))
      | inr (claimed, e) ↦ inr (
        claimed,
        payload_tenant_id-Names envelope.payload e,
        is_same_tenant_sound claimed company (not_false _ (rw (e, h, payload_disagrees) at d)),
      )
    ]
  where
    not_false : (b : Bool) → not b ≡ false → b ≡ true
    not_false b k = ground arith

-- The payload names another company than the envelope.
abbrev pub Disagrees : JobEnvelope → Type 0
Disagrees envelope =
    (claimed : Text) × (company : Text) × Names envelope.payload claimed
    × (envelope.company_id ≡ some company)
    × (¬ SameTenant claimed company)

pub Disagrees-payload_disagrees :
    (envelope : JobEnvelope) → Disagrees envelope → payload_disagrees envelope ≡ true
unfolding payload_disagrees
Disagrees-payload_disagrees envelope (claimed, company, n, e, differ) =
    rw (Names-payload_tenant_id envelope.payload n, e, payload_disagrees)
      (elim (Bool-cases (is_same_tenant claimed company)) [
        | inl same ↦ absurd (differ (is_same_tenant_sound claimed company same))
        | inr other' ↦ rw other' refl
      ])
