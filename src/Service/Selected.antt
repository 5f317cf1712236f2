-- ===== src/Service/Selected.antt =====
-- The claims and inputs that a writing packet is compared with.
use mathlib.Core.List.{Memᴰ}
use georesearch_dsh.Prelude.{
  String, ◌≡◌, refl, ap, subst, Bool, true, false, some, List, [], ◌∷◌, arith, ◌==◌, eq_iff,
  if◌then◌else◌, Result, ok, err, ◌>>=◌, >>=-ok_parts, Bool-cases, inl, inr, ok-injective,
}
use georesearch_dsh.Dict.{Dict, get, values}
use georesearch_dsh.Contracts.Claim.{ClaimRecord}
use georesearch_dsh.Contracts.Manuscript.{WritingPacket}
use georesearch_dsh.Contracts.State.{ProjectReducerState}
use georesearch_dsh.Service.Host.{Host}
use georesearch_dsh.Service.Guards.{Decision, same_strings}
use georesearch_dsh.Service.Claims.{claim_eligible_for_writing}
use georesearch_dsh.Service.Closure.{WritingInputClosure, collect_writing_inputs}
use georesearch_dsh.Service.Writing.{
  packet_guard, select_claims, sorted_claims, filter_is_complete, matches_closure,
}

pub Memᴰ-values :
    {A : Type 0} (m : Dict A) (k : String) (a : A) → get m k ≡ some a → Memᴰ a (values m)
unfolding get values
Memᴰ-values [] k a h = cc
Memᴰ-values ((j, b) ∷ m) k a h = elim (Bool-cases (j == k)) [
  | inl e ↦ Memᴰ.head (ground (arith, h, e))
  | inr e ↦ Memᴰ.tail (Memᴰ-values m k a (ground (arith, h, e)))
]

pub same_strings-eq : (xs ys : List String) → same_strings xs ys ≡ true → xs ≡ ys
same_strings-eq [] [] h = refl
same_strings-eq [] (y ∷ ys) h = cc
same_strings-eq (x ∷ xs) [] h = cc
same_strings-eq (x ∷ xs) (y ∷ ys) h =
    cc ((eq_iff x y).0 (ground (arith, h)), same_strings-eq xs ys (ground (arith, h)))

pub select_claims-keeps :
    (h : Host) (s : ProjectReducerState) (cs found : List ClaimRecord) (c : ClaimRecord)
    → select_claims h s true cs ≡ ok found
    → claim_eligible_for_writing h c s ≡ ok true
    → Memᴰ c cs
    → Memᴰ c found
unfolding select_claims
select_claims-keeps h s [] found c k eligible m = elim m [ ]
select_claims-keeps h s (x ∷ xs) found c k eligible m =
    let (good, first, more) =
      >>=-ok_parts (claim_eligible_for_writing h x s)
        (λ e. select_claims h s true xs >>= λ rest. ok (if e then x ∷ rest else rest)) k in
    let (rest, second, last) =
      >>=-ok_parts (select_claims h s true xs) (λ rest. ok (if good then x ∷ rest else rest))
        more in
    subst (Memᴰ c) (ok-injective last)
      (placed good rest first m (λ t. select_claims-keeps h s xs rest c second eligible t))
  where
    placed :
        (good : Bool) (rest : List ClaimRecord)
        → claim_eligible_for_writing h x s ≡ ok good
        → Memᴰ c (x ∷ xs)
        → (Memᴰ c xs → Memᴰ c rest)
        → Memᴰ c (if good then x ∷ rest else rest)
    placed true rest first (Memᴰ.head e) later = Memᴰ.head e
    placed true rest first (Memᴰ.tail t) later = Memᴰ.tail (later t)
    placed false rest first (Memᴰ.head e) later =
        cc (first, eligible, ap (λ y. claim_eligible_for_writing h y s) e)
    placed false rest first (Memᴰ.tail t) later = later t

-- What a packet that passes was compared with.
pub record IsPackable (h : Host) (packet : WritingPacket) (s : ProjectReducerState) : Type 0 where
  pub eligible : List ClaimRecord
  pub forbidden : List ClaimRecord
  pub closure : WritingInputClosure
  pub selected : select_claims h s true (sorted_claims h s) ≡ ok eligible
  pub complete : filter_is_complete h s packet eligible forbidden ≡ true
  pub collected : collect_writing_inputs h.locale_le s eligible ≡ ok closure
  pub matched : matches_closure h packet closure ≡ true

pub packet_parts :
    (h : Host) (packet : WritingPacket) (s : ProjectReducerState) (d : Decision)
    → packet_guard h packet s ≡ ok d
    → IsPackable h packet s
unfolding packet_guard
packet_parts h packet s d k =
    go (select_claims h s true (sorted_claims h s)) (select_claims h s false (sorted_claims h s))
      refl refl
  where
    on_closure :
        (eligible forbidden : List ClaimRecord) (c : Result WritingInputClosure)
        → select_claims h s true (sorted_claims h s) ≡ ok eligible
        → select_claims h s false (sorted_claims h s) ≡ ok forbidden
        → collect_writing_inputs h.locale_le s eligible ≡ c
        → IsPackable h packet s
    on_closure eligible forbidden (err e) x y z = ground (arith, k, x, y, z)
    on_closure eligible forbidden (ok c) x y z = record {
      eligible = eligible;
      forbidden = forbidden;
      closure = c;
      selected = x;
      complete = ground (arith, k, x, y, z);
      collected = z;
      matched = ground (arith, k, x, y, z);
    }

    go :
        (a b : Result (List ClaimRecord))
        → select_claims h s true (sorted_claims h s) ≡ a
        → select_claims h s false (sorted_claims h s) ≡ b
        → IsPackable h packet s
    go (err e) b x y = ground (arith, k, x)
    go (ok eligible) (err e) x y = ground (arith, k, x, y)
    go (ok eligible) (ok forbidden) x y =
        on_closure eligible forbidden (collect_writing_inputs h.locale_le s eligible) x y refl
