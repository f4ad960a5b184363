-- ===== src/Approval/Exact.antt =====
-- What an accepted grant satisfies, and what a refused one leaves: `verifyApproval` of
-- src/approval.ts.
use h3_protocol.Action.{BoundAction, actions_equal}
use h3_protocol.Approval.{
  ApprovalGrant, ApprovalFailure, ApprovalVerifyResult, VerifyApprovalOptions, ok, failed, thrown,
  already_used, approval_version, max_approval_ttl_ms, canonicalize_approval, approval_key,
  at_least_one, check_grant_signature, vet_approval, consume_grant, used_result, verify_grant,
  verify_presented, verify_approval,
}
use h3_protocol.Crypto.{WebCrypto, verify_canonical_payload}
use h3_protocol.Prelude.Int.{ℤ, ◌+ℤ◌, ◌-ℤ◌, ◌≤ℤ◌, ◌<ℤ◌}
use h3_protocol.Prelude.Texts.{Text, text_eq_iff, includes}
use h3_protocol.Prelude.{
  ◌≡◌, ◌≢◌, ◌⊎◌, refl, ◌∙◌, inl, inr, Bool, true, false, Option, none, some, [], ◌∷◌, arith,
}
use h3_protocol.Replay.Store.{ReplayStore}

actions_equal_iff : (a b : BoundAction) → actions_equal a b ≡ true → a ≡ b
unfolding actions_equal
actions_equal_iff a b h = ground (
  arith,
  text_eq_iff a.method b.method,
  text_eq_iff a.path b.path,
  text_eq_iff a.body_sha256 b.body_sha256,
)

-- A grant that passes every check but that of its single use.
pub record Vetted (web : WebCrypto) (opts : VerifyApprovalOptions) (now skew : ℤ)
    (grant : ApprovalGrant) : Type 0 where
  pub current : grant.version ≡ approval_version
  pub allowed : includes grant.approver opts.allowed_approvers ≡ true
  pub separate : grant.approver ≢ grant.subject
  pub lasting : grant.issued_at <ℤ grant.expires_at
  pub brief : (grant.expires_at -ℤ grant.issued_at) ≤ℤ max_approval_ttl_ms
  pub begun : grant.issued_at ≤ℤ (now +ℤ skew)
  pub unexpired : now <ℤ grant.expires_at
  pub for_subject : grant.subject ≡ opts.subject
  pub for_action : grant.action ≡ opts.action
  pub key : Text
  pub registered : opts.approver_keys grant.approver ≡ some key
  pub verified :
      verify_canonical_payload web (canonicalize_approval grant) grant.signature key ≡ some true

grant_signature :
    (web : WebCrypto) (grant vetted : ApprovalGrant) (found : Option Text)
    → check_grant_signature web grant found ≡ ok vetted
    → (vetted ≡ grant)
      × (key : Text) × (found ≡ some key)
      × (verify_canonical_payload web (canonicalize_approval grant) grant.signature key ≡ some true)
unfolding check_grant_signature
grant_signature web grant vetted none h = cc
grant_signature web grant vetted (some []) h = cc
grant_signature web grant vetted (some (u ∷ key)) h =
    (ground (arith, h), u ∷ key, refl, ground (arith, h))

vet_approval-Vetted :
    (web : WebCrypto) (grant vetted : ApprovalGrant) (opts : VerifyApprovalOptions) (now skew : ℤ)
    → vet_approval web grant opts now skew ≡ ok vetted
    → (vetted ≡ grant) × Vetted web opts now skew grant
unfolding vet_approval
vet_approval-Vetted web grant vetted opts now skew h =
    let signed : check_grant_signature web grant (opts.approver_keys grant.approver) ≡ ok vetted =
      ground (arith, h) in
    let (same, key, registered, verified) =
      grant_signature web grant vetted (opts.approver_keys grant.approver) signed in
    (
      same,
      record {
        current = ground (arith, h, text_eq_iff grant.version approval_version);
        allowed = ground (arith, h);
        separate = λ e. ground (arith, h, text_eq_iff grant.approver grant.subject);
        lasting = ground (arith, h);
        brief = ground (arith, h);
        begun = ground (arith, h);
        unexpired = ground (arith, h);
        for_subject = ground (arith, h, text_eq_iff grant.subject opts.subject);
        for_action = actions_equal_iff grant.action opts.action (ground (arith, h));
        key = key;
        registered = registered;
        verified = verified;
      },
    )

consume_grant-ok :
    (store : ReplayStore) (s : store.State) (single : Bool) (g g' : ApprovalGrant) (now skew : ℤ)
    → (consume_grant store s single g now skew).1 ≡ ok g'
    → (g' ≡ g)
      × (single ≡ true
          → (store.check_key s (approval_key g) (at_least_one (g.expires_at -ℤ now) +ℤ skew)).1
            ≡ some false)
unfolding consume_grant used_result
consume_grant-ok store s false g g' now skew h = (cc, λ e. cc)
consume_grant-ok store s true g g' now skew h =
    used_ok (store.check_key s (approval_key g) (at_least_one (g.expires_at -ℤ now) +ℤ skew)).1 refl
      h
  where
    used_ok :
        (o : Option Bool)
        → (store.check_key s (approval_key g) (at_least_one (g.expires_at -ℤ now) +ℤ skew)).1 ≡ o
        → used_result g o ≡ ok g'
        → (g' ≡ g)
          × (true ≡ true
              → (store.check_key s (approval_key g) (at_least_one (g.expires_at -ℤ now) +ℤ skew)).1
                ≡ some false)
    used_ok none e u = cc
    used_ok (some true) e u = cc
    used_ok (some false) e u = (cc, λ r. e)

abbrev pub ResultCases : ApprovalVerifyResult → Type 0
ResultCases r =
    ((g : ApprovalGrant) × (r ≡ ok g)) ⊎ (((f : ApprovalFailure) × (r ≡ failed f)) ⊎ (r ≡ thrown))

pub result-cases : (r : ApprovalVerifyResult) → ResultCases r
result-cases (ok g) = inl (g, refl)
result-cases (failed f) = inr (inl (f, refl))
result-cases thrown = inr (inr refl)

module _ (web : WebCrypto) (store : ReplayStore) (opts : VerifyApprovalOptions) (now skew : ℤ) where
  -- The check of the single use of a grant came back fresh, where it is made.
  abbrev pub UsedFresh : store.State → ApprovalGrant → Type 0
  UsedFresh s g =
      opts.single_use ≡ true
      → (store.check_key s (approval_key g) (at_least_one (g.expires_at -ℤ now) +ℤ skew)).1
        ≡ some false

  verify_grant-ok :
      (s : store.State) (grant g : ApprovalGrant)
      → (verify_grant web store s grant opts now skew).1 ≡ ok g
      → (g ≡ grant) × Vetted web opts now skew grant × UsedFresh s grant
  unfolding verify_grant
  verify_grant-ok s grant g h = elim (result-cases (vet_approval web grant opts now skew)) [
    | inl (vetted, e) ↦
        let (same, passes) = vet_approval-Vetted web grant vetted opts now skew e in
        let used : (consume_grant store s opts.single_use vetted now skew).1 ≡ ok g =
          ground (arith, h, e) in
        let (own, fresh) = consume_grant-ok store s opts.single_use vetted g now skew used in
        (own ∙ same, passes, (rw (← same) fresh))
    | inr (inl (f, e)) ↦ ground (arith, h, e)
    | inr (inr e) ↦ ground (arith, h, e)
  ]

  shown :
      (s : store.State) (grant : Option ApprovalGrant) (g : ApprovalGrant)
      → (verify_approval web store s grant opts now skew).1 ≡ ok g
      → (verify_presented web store s grant opts now skew).1 ≡ ok g
  unfolding verify_approval
  shown s grant g h = ground (arith, h)

  presented-ok :
      (s : store.State) (grant : Option ApprovalGrant) (g : ApprovalGrant)
      → (verify_presented web store s grant opts now skew).1 ≡ ok g
      → (grant ≡ some g) × Vetted web opts now skew g × UsedFresh s g
  unfolding verify_presented
  presented-ok s none g h = cc
  presented-ok s (some grant) g h =
      let (same, passes, fresh) = verify_grant-ok s grant g h in rw same (refl, passes, fresh)

  -- Where verifyApproval accepts, the grant is the one presented and passes every check: its version, an allowed approver who is
  -- not the subject, a lifetime that is not empty, of at most ten minutes, that has begun and not ended, this subject, exactly this action, and a
  -- signature that verifies with the approver's registered key; and where a replay store is given, it reported the grant's key
  -- as fresh.
  pub accepted_approval_binds :
      (s : store.State) (grant : Option ApprovalGrant) (g : ApprovalGrant)
      → (verify_approval web store s grant opts now skew).1 ≡ ok g
      → (grant ≡ some g) × Vetted web opts now skew g × UsedFresh s g
  accepted_approval_binds s grant g h = presented-ok s grant g (shown s grant g h)

  used_failed :
      (grant : ApprovalGrant) (o : Option Bool) (f : ApprovalFailure)
      → used_result grant o ≡ failed f
      → f ≡ already_used
  unfolding used_result
  used_failed grant none f h = cc
  used_failed grant (some true) f h = cc
  used_failed grant (some false) f h = cc

  consume_failed :
      (s : store.State) (single : Bool) (grant : ApprovalGrant) (f : ApprovalFailure)
      → (consume_grant store s single grant now skew).1 ≡ failed f
      → f ≡ already_used
  unfolding consume_grant
  consume_failed s false grant f h = cc
  consume_failed s true grant f h = used_failed grant _ f h

  verify_grant-failed :
      (s : store.State) (grant : ApprovalGrant) (f : ApprovalFailure)
      → (verify_grant web store s grant opts now skew).1 ≡ failed f
      → f ≢ already_used
      → (verify_grant web store s grant opts now skew).0 ≡ s
  unfolding verify_grant
  verify_grant-failed s grant f h other =
      elim (result-cases (vet_approval web grant opts now skew)) [
        | inl (vetted, e) ↦
            absurd (other (consume_failed s opts.single_use vetted f (ground (arith, h, e))))
        | inr (inl (f', e)) ↦ ground (arith, e)
        | inr (inr e) ↦ ground (arith, e)
      ]

  -- A verification that fails for another reason than an earlier use leaves the replay store as it was: only a presentation that
  -- passes every other check spends a grant.
  pub failed_approval_spends_nothing :
      (s : store.State) (grant : Option ApprovalGrant) (f : ApprovalFailure)
      → (verify_approval web store s grant opts now skew).1 ≡ failed f
      → f ≢ already_used
      → (verify_approval web store s grant opts now skew).0 ≡ s
  unfolding verify_approval verify_presented
  failed_approval_spends_nothing s none f h other = ground (arith, h)
  failed_approval_spends_nothing s (some grant) f h other =
      ground (arith, h, verify_grant-failed s grant f)

  verify_grant-uses :
      (s : store.State) (grant g : ApprovalGrant)
      → (verify_grant web store s grant opts now skew).1 ≡ ok g
      → opts.single_use ≡ true
      → (verify_grant web store s grant opts now skew).0
        ≡ (store.check_key s
            (approval_key grant)
            (at_least_one (grant.expires_at -ℤ now) +ℤ skew)).0
  unfolding verify_grant consume_grant
  verify_grant-uses s grant g h single =
      elim (result-cases (vet_approval web grant opts now skew)) [
        | inl (vetted, e) ↦
            let (same, _) = vet_approval-Vetted web grant vetted opts now skew e in
            ground (arith, e, single, same)
        | inr (inl (f, e)) ↦ ground (arith, h, e)
        | inr (inr e) ↦ ground (arith, h, e)
      ]

  -- The store after an accepted single use is the one that its check left.
  pub accepted_approval_uses :
      (s : store.State) (grant g : ApprovalGrant)
      → (verify_approval web store s (some grant) opts now skew).1 ≡ ok g
      → opts.single_use ≡ true
      → (verify_approval web store s (some grant) opts now skew).0
        ≡ (store.check_key s
            (approval_key grant)
            (at_least_one (grant.expires_at -ℤ now) +ℤ skew)).0
  unfolding verify_approval verify_presented
  accepted_approval_uses s grant g h single = ground (arith, h, verify_grant-uses s grant g)
