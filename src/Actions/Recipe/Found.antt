-- ===== src/Actions/Recipe/Found.antt =====
-- The references of a template, each of which names a document that is there.
use useful.Common.{
  is_digit, is_lower, ℕ, Bool, true, not, ◌&&◌, ◌||◌, List, [], ◌∷◌, Option, none, some, Text,
  codes, all, text_eq, contains, ◌==◌, Result, ok, ◌>>=◌, ◌>>◌, guard, require, bind-eq-ok,
  then-eq-ok, ◌≡◌, inl, inr, refl, arith, Bool-cases,
}
use useful.Js.Value.{Value, str}
use useful.Actions.Recipe.Pointer.{
  RecipeCode, Target, step_target, is_known, is_forbidden, match_step, match_reference, segments_of,
  decode_all, validate_reference, replace_escape, decode_pointer_segment, is_step_id,
  begins_with_slash, reference_invalid, forward_reference, forbidden_key,
}
use useful.Actions.Recipe.Run.{Root, output_of, step_document, document_at}
use useful.Actions.Recipe.References.{References, References-weaken, IsReference}

-- The pointer is text, and its document is there.
abbrev pub IsFound : Root → Value → Type 0
IsFound root (str pointer) =
    (found : Value × List Text) × (document_at root (segments_of pointer) ≡ ok found)
IsFound root _ = ⊥

-- Every completed step has an output.
abbrev pub Covers : Root → List Text → Type 0
Covers root completed =
    (id : Text)
    → contains completed id ≡ true
    → (output : Value) × (output_of id root.outputs ≡ some output)

decode_all-first :
    (segment : Text) (segments : List Text) {decoded : List Text}
    → decode_all (segment ∷ segments) ≡ ok decoded
    → ((d : Text) × (decode_pointer_segment segment ≡ ok d))
      × ((ds : List Text) × (decode_all segments ≡ ok ds))
unfolding decode_all
decode_all-first segment segments h =
    let (d, one, rest) =
      bind-eq-ok (decode_pointer_segment segment) (λ x. decode_all segments >>= λ r. ok (x ∷ r))
        h in
    let (ds, two, made) = bind-eq-ok (decode_all segments) (λ r. ok (d ∷ r)) rest in
    ((d, one), (ds, two))

no_tilde : Text → Bool
no_tilde [] = true
no_tilde (c ∷ t) = not (c == b'~') && no_tilde t

is_step_id-no_tilde : (t : Text) → is_step_id t ≡ true → no_tilde t ≡ true
unfolding is_step_id no_tilde
is_step_id-no_tilde [] h = refl
is_step_id-no_tilde (c ∷ t) h = ground (arith, rest t)
  where
    rest :
        (u : Text)
        → all (λ d. is_lower d || is_digit d || d == b'_' || d == b'-') u ≡ true
        → no_tilde u ≡ true
    rest [] k = refl
    rest (d ∷ u) k = ground (arith, rest u)

replace_escape_same :
    (digit unit : ℕ) (t : Text) → no_tilde t ≡ true → replace_escape digit unit t ≡ t
unfolding replace_escape no_tilde
replace_escape_same digit unit [] h = refl
replace_escape_same digit unit (c ∷ []) h = refl
replace_escape_same digit unit (c ∷ d ∷ t) h =
    ground (arith, replace_escape_same digit unit (d ∷ t))

decode-step_id :
    (id : Text) {d : Text} → is_step_id id ≡ true → decode_pointer_segment id ≡ ok d → d ≡ id
unfolding decode_pointer_segment
decode-step_id id h e =
    let plain = is_step_id-no_tilde id h in
    let e' =
      rw (replace_escape_same b'1' b'/' id plain, replace_escape_same b'0' b'~' id plain) at e in
    let made = (then-eq-ok (not (is_forbidden id)) forbidden_key (ok id) e').1 in cc

matched :
    (id part : Text) (rest : List Text) {found : Target × List Text}
    → match_step (id ∷ part ∷ rest) ≡ some found
    → (is_step_id id ≡ true) × (text_eq part (codes "output") ≡ true) × (found.0 ≡ step_target id)
unfolding match_step
matched id part rest h = ground arith

-- A step's part of a pointer that matches names the output of a completed step.
step_document-found :
    (root : Root) (completed : List Text) (segments : List Text) {found : Target × List Text}
    {decoded : List Text}
    → match_step segments ≡ some found
    → is_known completed found.0 ≡ true
    → decode_all segments ≡ ok decoded
    → Covers root completed
    → (document : Value × List Text) × (step_document root.outputs segments ≡ ok document)
unfolding match_step step_document
step_document-found root completed [] m k d c = cc
step_document-found root completed (id ∷ []) m k d c = cc
step_document-found root completed (id ∷ part ∷ rest) {found} m k d c =
    let ((decoded_id, first), others) = decode_all-first id (part ∷ rest) d in
    let (good, is_output, target) = matched id part rest m in
    let same = decode-step_id id good first in
    let known : contains completed id ≡ true = rw target at k in
    let (output, there) = c id known in ((output, rest), rw (first, same, there, is_output) refl)

pub require-some :
    {A : Type 0} (o : Option A) (e : RecipeCode) {a : A} → require o e ≡ ok a → o ≡ some a
require-some none e h = cc
require-some (some a) e h = cc

document_at-found :
    (root : Root) (completed : List Text) (segments : List Text) {found : Target × List Text}
    {decoded : List Text}
    → match_reference segments ≡ some found
    → is_known completed found.0 ≡ true
    → decode_all segments ≡ ok decoded
    → Covers root completed
    → (document : Value × List Text) × (document_at root segments ≡ ok document)
unfolding match_reference document_at
document_at-found root completed [] m k d c = cc
document_at-found root completed (first ∷ rest) m k d c =
    elim (Bool-cases (text_eq first (codes "input"))) [
      | inl e ↦ ((root.input, rest), rw e refl)
      | inr e ↦ elim (Bool-cases (text_eq first (codes "steps"))) [
        | inl s ↦
            let m' : match_step rest ≡ some _ = rw (e, s) at m in
            let (document, there) =
              step_document-found root completed rest m' k (decode_all-first first rest d).1.1 c in
            (document, rw (e, s) there)
        | inr s ↦ let m' = rw (e, s) at m in cc
      ]
    ]

validate_reference-IsFound :
    (root : Root) (completed : List Text) (reference : Value)
    → Covers root completed
    → validate_reference reference completed ≡ ok tt
    → IsFound root reference
unfolding validate_reference
validate_reference-IsFound root completed (str pointer) c h =
    let segments = segments_of pointer in
    let decode : Result RecipeCode (Unit {0}) = decode_all segments >>= λ _. ok tt in
    let after : Target × List Text → Result RecipeCode (Unit {0}) =
      λ f. guard (is_known completed f.0) forward_reference >> decode in
    let (found, match, rest) =
      bind-eq-ok (require (match_reference segments) reference_invalid) after
        (then-eq-ok (begins_with_slash pointer) reference_invalid
          (require (match_reference segments) reference_invalid >>= after) h).1 in
    let (known, decoding) = then-eq-ok (is_known completed found.0) forward_reference decode rest in
    let (decoded, all_decoded, _) = bind-eq-ok (decode_all segments) (λ _. ok tt) decoding in
    document_at-found root completed segments
      (require-some (match_reference segments) reference_invalid match) known all_decoded c
validate_reference-IsFound root completed _ c h = cc

-- The references of such a template all name documents, once each completed step has an output.
pub References-IsFound :
    (root : Root) (completed : List Text) (v : Value)
    → Covers root completed
    → References (IsReference completed) v
    → References (IsFound root) v
References-IsFound root completed v c h =
    References-weaken (IsReference completed) (IsFound root)
      (λ r. validate_reference-IsFound root completed r c) v h
