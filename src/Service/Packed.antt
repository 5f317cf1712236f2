-- ===== src/Service/Packed.antt =====
-- What a writing packet holds.
use mathlib.Core.List.{Memᴰ}
use georesearch_dsh.Prelude.{
  String, ◌≡◌, sym, ap, subst, ◌∙◌, true, some, List, arith, map, includes, includes-sort_strings,
  sort_strings, ok,
}
use georesearch_dsh.Dict.{Dict, get, values, or_empty}
use georesearch_dsh.Contracts.Claim.{ClaimRecord}
use georesearch_dsh.Contracts.Manuscript.{WritingPacket}
use georesearch_dsh.Contracts.State.{ProjectReducerState, ProjectStateFile}
use georesearch_dsh.Contracts.Event.{ProjectEvent}
use georesearch_dsh.Store.Disk.{Disk, Encoding}
use georesearch_dsh.Store.Synced.{IsSynced}
use georesearch_dsh.Service.Host.{Host, Canonical, digest_json}
use georesearch_dsh.Service.Guards.{same_strings}
use georesearch_dsh.Service.Claims.{claim_eligible_for_writing}
use georesearch_dsh.Service.Closure.{evidence_ids, result_ids}
use georesearch_dsh.Service.Writing.{sorted_claims, ids}
use georesearch_dsh.Service.Gathered.{
  IsGathered, evidence_gathered, result_gathered, includes-map, sort_by-keeps,
}
use georesearch_dsh.Service.Selected.{
  Memᴰ-values, same_strings-eq, select_claims-keeps, IsPackable, packet_parts,
}
use georesearch_dsh.Service.Commit.{Proposal, Envelope, guard, commit_proposal}
use georesearch_dsh.Service.Committing.{decided_ok}

-- A record on file under `k` whose digest is that of a record of the packet.
pub record IsPacked {A : Type 0} (digest : A → String) (m : Dict A) (packed : List A) (k : String)
    : Type 0 where
  pub it : A
  pub filed : get m k ≡ some it
  pub digest_packed : includes (digest it) (map digest packed) ≡ true

packed_digest :
    {A : Type 0} (digest : A → String) (m : Dict A) (packed found : List A) (k : String)
    → same_strings (map digest packed) (map digest found) ≡ true
    → (g : IsGathered m found k) → includes (digest g.it) (map digest packed) ≡ true
packed_digest digest m packed found k same g =
    subst (λ ds. includes (digest g.it) ds ≡ true)
      (sym (same_strings-eq (map digest packed) (map digest found) same))
      (includes-map digest g.it found g.member)

-- The packet has the claim, and the evidence with its source.
pub record PacksEvidence (s : ProjectReducerState) (packet : WritingPacket) (claim_id k : String)
    : Type 0 where
  pub claim : includes claim_id (ids packet.claims) ≡ true
  pub evidence : IsPacked (λ e. e.digest) (or_empty s.evidence) packet.evidence k
  pub source : IsPacked (λ e. e.digest) (or_empty s.sources) packet.sources evidence.it.source_id

-- The packet has the claim, and the result with its run and its spec.
pub record PacksResult (h : Host) (s : ProjectReducerState) (packet : WritingPacket)
    (claim_id k : String) : Type 0 where
  pub claim : includes claim_id (ids packet.claims) ≡ true
  pub result : IsPacked (λ r. r.digest) (or_empty s.results) packet.results k
  pub run : IsPacked (λ r. digest_json h (Canonical.run r)) s.runs packet.runs result.it.run_id
  pub spec :
      IsPacked
        (λ e. e.digest)
        (or_empty s.experiment_specs)
        packet.experiment_specs
        result.it.experiment_spec_id

module _ (h : Host) (s : ProjectReducerState) (packet : WritingPacket)
    (parts : IsPackable h packet s) (k : String) (claim : ClaimRecord)
    (filed : get (or_empty s.claims) k ≡ some claim)
    (eligible : claim_eligible_for_writing h claim s ≡ ok true) where
  selected_claim : Memᴰ claim parts.eligible
  unfolding sorted_claims
  selected_claim =
      select_claims-keeps h s (sorted_claims h s) parts.eligible claim parts.selected eligible (
        sort_by-keeps h.locale_le (λ c. c.claim_id) claim (values (or_empty s.claims))
          (Memᴰ-values (or_empty s.claims) k claim filed))

  packed_claim : includes claim.claim_id (ids packet.claims) ≡ true
  packed_claim =
      sym (includes-sort_strings claim.claim_id (ids packet.claims))
      ∙ ap (includes claim.claim_id) (
          same_strings-eq (sort_strings (ids packet.claims)) (sort_strings (ids parts.eligible))
            (ground (arith, parts.complete)))
      ∙ includes-sort_strings claim.claim_id (ids parts.eligible)
      ∙ includes-map (λ c. c.claim_id) claim parts.eligible selected_claim

  packs_evidence :
      (j : String)
      → includes j (evidence_ids claim) ≡ true
      → PacksEvidence s packet claim.claim_id j
  packs_evidence j named =
      let g =
        evidence_gathered h.locale_le s parts.eligible parts.closure parts.collected claim
          selected_claim j named in
      record {
        claim = packed_claim;
        evidence = record {
          it = g.evidence.it;
          filed = g.evidence.filed;
          digest_packed =
              packed_digest _ _ packet.evidence parts.closure.evidence j
                (ground (arith, parts.matched)) g.evidence;
        };
        source = record {
          it = g.source.it;
          filed = g.source.filed;
          digest_packed =
              packed_digest _ _ packet.sources parts.closure.sources g.evidence.it.source_id
                (ground (arith, parts.matched)) g.source;
        };
      }

  packs_result :
      (j : String) → includes j (result_ids claim) ≡ true → PacksResult h s packet claim.claim_id j
  packs_result j named =
      let g =
        result_gathered h.locale_le s parts.eligible parts.closure parts.collected claim
          selected_claim j named in
      record {
        claim = packed_claim;
        result = record {
          it = g.result.it;
          filed = g.result.filed;
          digest_packed =
              packed_digest _ _ packet.results parts.closure.results j
                (ground (arith, parts.matched)) g.result;
        };
        run = record {
          it = g.run.it;
          filed = g.run.filed;
          digest_packed =
              packed_digest _ _ packet.runs parts.closure.runs g.result.it.run_id
                (ground (arith, parts.matched)) g.run;
        };
        spec = record {
          it = g.spec.it;
          filed = g.spec.filed;
          digest_packed =
              packed_digest _ _ packet.experiment_specs parts.closure.experiment_specs
                g.result.it.experiment_spec_id (ground (arith, parts.matched)) g.spec;
        };
      }

module _ (h : Host) (p : Encoding) (project_id : String) (disk : Disk) (events : List ProjectEvent)
    (latest : ProjectEvent) (state : ProjectReducerState)
    (synced : IsSynced p project_id disk events latest state) (e : Envelope)
    (packet : WritingPacket) (time : String) (f : ProjectStateFile) (k : String)
    (claim : ClaimRecord) (j : String) (filed : get (or_empty state.claims) k ≡ some claim)
    (eligible : claim_eligible_for_writing h claim state ≡ ok true)
    (done : (commit_proposal h p project_id e (Proposal.packet packet) time disk).0 ≡ ok f) where
  packable : IsPackable h packet state
  unfolding guard
  packable =
      let (d, decided) =
        decided_ok h p project_id disk events latest state synced e (Proposal.packet packet) time f
          done in
      packet_parts h packet state d decided

  -- If a writing packet is committed, on a project whose snapshot agrees with its log, and a claim
  -- on file that is eligible for writing refers to some evidence, then the packet lists the claim, the evidence is on file and,
  -- by its digest, in the packet, and so is the source of the evidence.
  pub packet_has_evidence :
      includes j (evidence_ids claim) ≡ true → PacksEvidence state packet claim.claim_id j
  packet_has_evidence named = packs_evidence h state packet packable k claim filed eligible j named

  -- If a writing packet is committed, on a project whose snapshot agrees with its log, and a claim
  -- on file that is eligible for writing refers to a result or calculates with it, then the packet
  -- lists the claim, the result is on file and, by its digest, in the packet, and so are the run and
  -- the experiment spec of the result.
  pub packet_has_results :
      includes j (result_ids claim) ≡ true → PacksResult h state packet claim.claim_id j
  packet_has_results named = packs_result h state packet packable k claim filed eligible j named
