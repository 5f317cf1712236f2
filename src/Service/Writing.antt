-- ===== src/Service/Writing.antt =====
-- `commitWritingPacket` and `commitManuscript`: what they check.
use georesearch_dsh.Prelude.{
  String, Bool, true, false, ◌&&◌, ◌||◌, not, Option, none, List, [], ◌∷◌, ◌==◌, any, map,
  sort_strings, if◌then◌else◌, Result, ok, err, ◌>>=◌, Failure, geo_research_error, other_error,
}
use georesearch_dsh.Dict.{get, values, or_empty}
use georesearch_dsh.Contracts.Artifact.{ArtifactRef}
use georesearch_dsh.Contracts.Claim.{ClaimRecord}
use georesearch_dsh.Contracts.Manuscript.{
  WritingPacket, ManuscriptRecord, ManuscriptAudit, ManuscriptChecks, ManuscriptStatus,
}
use georesearch_dsh.Contracts.State.{ProjectReducerState}
use georesearch_dsh.Service.Host.{Host, Canonical, digest_json}
use georesearch_dsh.Service.Guards.{
  Decision, holds, settle, same_strings, sort_by, assert_current_binding,
}
use georesearch_dsh.Service.Reviews.{is_passed}
use georesearch_dsh.Service.Claims.{claim_eligible_for_writing}
use georesearch_dsh.Service.Closure.{WritingInputClosure, collect_writing_inputs, packet_invalid}

-- Two arrays of references have the same text.
abbrev same_refs : List ArtifactRef → List ArtifactRef → Bool
same_refs [] [] = true
same_refs (x ∷ xs) (y ∷ ys) =
    x.artifact_id == y.artifact_id && x.digest == y.digest && x.kind == y.kind && same_refs xs ys
same_refs _ _ = false

abbrev pub ids : List ClaimRecord → List String
ids claims = map (λ c. c.claim_id) claims

module _ (h : Host) where
  unfoldable pub packet_precheck : String → WritingPacket → Result (Unit {0})
  unfolding digest_json
  packet_precheck project_id packet =
      if not
        (digest_json h (Canonical.packet_body (record packet { digest = "" })) == packet.digest)
      then err other_error
      else if not (packet.project_id == project_id)
      then err other_error
      else ok tt

  -- `claims.filter(claim => claimEligibleForWriting(claim, state) === wanted)`
  unfoldable pub select_claims :
      ProjectReducerState → Bool → List ClaimRecord → Result (List ClaimRecord)
  select_claims s wanted [] = ok []
  select_claims s wanted (c ∷ cs) = claim_eligible_for_writing h c s >>= λ eligible.
      select_claims s wanted cs >>= λ rest.
      ok (if (if wanted then eligible else not eligible) then c ∷ rest else rest)

  unfoldable pub sorted_claims : ProjectReducerState → List ClaimRecord
  sorted_claims s = sort_by h.locale_le (λ c. c.claim_id) (values (or_empty s.claims))

  -- The claims of a packet are those that are eligible, at their digests, and it forbids the rest.
  abbrev pub filter_is_complete :
      ProjectReducerState → WritingPacket → List ClaimRecord → List ClaimRecord → Bool
  filter_is_complete s packet eligible forbidden =
      same_strings (sort_strings (ids packet.claims)) (sort_strings (ids eligible))
      && same_strings (sort_strings packet.forbidden_claim_ids) (sort_strings (ids forbidden))
      && not (
          any (λ c. not (holds (λ r. r.digest == c.digest) (get (or_empty s.claims) c.claim_id)))
            packet.claims)

  -- `assertExactRecordArray`, `assertExactRunArray` and the comparison that follows them
  abbrev pub matches_closure : WritingPacket → WritingInputClosure → Bool
  matches_closure p c =
      same_strings (map (λ r. r.digest) p.sources) (map (λ r. r.digest) c.sources)
      && same_strings (map (λ r. r.digest) p.evidence) (map (λ r. r.digest) c.evidence)
      && same_strings (map (λ r. r.digest) p.experiment_specs)
          (map (λ r. r.digest) c.experiment_specs)
      && same_strings (map (λ r. digest_json h (Canonical.run r)) p.runs)
          (map (λ r. digest_json h (Canonical.run r)) c.runs)
      && same_strings (map (λ r. r.digest) p.results) (map (λ r. r.digest) c.results)
      && same_strings (map (λ r. r.digest) p.validation_reports)
          (map (λ r. r.digest) c.validation_reports)
      && same_refs p.artifact_refs c.artifact_refs
      && same_strings p.limitations c.limitations

  unfoldable pub packet_guard : WritingPacket → ProjectReducerState → Result Decision
  unfolding select_claims sorted_claims
  packet_guard packet s =
      assert_current_binding s packet.workspace_id packet.workspace_binding_version >>= λ u.
      if not (holds (λ brief. brief.digest == packet.research_brief.digest) s.research_brief)
      then err packet_invalid
      else select_claims s true (sorted_claims s) >>= λ eligible.
          select_claims s false (sorted_claims s) >>= λ forbidden.
          if not (filter_is_complete s packet eligible forbidden)
          then err packet_invalid
          else collect_writing_inputs h.locale_le s eligible >>= λ closure.
              if not (matches_closure packet closure)
              then err packet_invalid
              else settle (get (or_empty s.writing_packets) packet.packet_id)
                  (λ existing. existing.digest == packet.digest) packet_invalid

-- A manuscript and its audit.
pub record ManuscriptBundle : Type 0 where
  pub manuscript : ManuscriptRecord
  pub audit : ManuscriptAudit

unfoldable pub manuscript_precheck : Host → String → ManuscriptBundle → Result (Unit {0})
unfolding digest_json
manuscript_precheck h project_id b =
    if not (
      digest_json h (Canonical.manuscript_body (record b.manuscript { digest = "" }))
      == b.manuscript.digest)
    then err other_error
    else if not (
        digest_json h (Canonical.manuscript_audit_body (record b.audit { digest = "" }))
        == b.audit.digest)
    then err other_error
    else if not (b.manuscript.project_id == project_id && b.audit.project_id == project_id)
    then err other_error
    else ok tt

abbrev pub manuscript_invalid : Failure
manuscript_invalid = geo_research_error "MANUSCRIPT_INVALID"

abbrev pub is_validated : ManuscriptStatus → Bool
is_validated ManuscriptStatus.validated = true
is_validated ManuscriptStatus.blocked = false

abbrev pub all_checks : ManuscriptChecks → Bool
all_checks c =
    c.packet_current && c.claims_eligible && c.forbidden_claims_absent && c.numbers_traceable
    && c.literature_traceable && c.sections_allowed

abbrev pub is_audited : ManuscriptBundle → Bool
is_audited b =
    b.audit.packet_id == b.manuscript.packet_id
    && b.audit.packet_digest == b.manuscript.packet_digest
    && b.audit.manuscript_id == b.manuscript.manuscript_id
    && b.audit.audit_id == b.manuscript.audit_id
    && (if is_validated b.manuscript.status
        then is_passed b.audit.overall
        else not (is_passed b.audit.overall))
    && (not (is_passed b.audit.overall) || all_checks b.audit.checks)

abbrev settle_manuscript :
    ManuscriptBundle → Option ManuscriptRecord → Option ManuscriptAudit → Result Decision
settle_manuscript b none none = ok Decision.write
settle_manuscript b manuscript audit =
    if holds (λ m. m.digest == b.manuscript.digest) manuscript
      && holds (λ a. a.digest == b.audit.digest) audit
    then ok Decision.keep
    else err manuscript_invalid

unfoldable pub manuscript_guard : ManuscriptBundle → ProjectReducerState → Result Decision
manuscript_guard b s =
    assert_current_binding s b.manuscript.workspace_id b.manuscript.workspace_binding_version
    >>= λ u.
        if not (
            holds (λ p. p.digest == b.manuscript.packet_digest)
              (get (or_empty s.writing_packets) b.manuscript.packet_id))
          || not (is_audited b)
        then err manuscript_invalid
        else settle_manuscript b (get (or_empty s.manuscripts) b.manuscript.manuscript_id)
            (get (or_empty s.manuscript_audits) b.audit.audit_id)
