-- ===== src/ComputerUse/Policy/Laws.antt =====
-- What an accepted policy guarantees.
use useful.Common.{
  ℕ, ◌*◌, ◌≤◌, Bool, true, false, not, ◌&&◌, List, [], ◌∷◌, Option, Text, codes, length, any,
  all_distinct, leb, Result, ok, err, ◌>>=◌, guard, Ensures, Ensures-ok, Ensures-bind,
  Ensures-guard, ◌≡◌, ◌⊎◌, leb→le, String, refl, arith,
}
use useful.Common.Sorting.{IsSorted, sort-IsSorted, all_distinct-sort, any-sort, length-sort}
use useful.Js.Value.{
  pos, Value, bool, int, str, arr, nil, obj, end, is_text, items, nat_in, default_to,
}
use useful.ComputerUse.Base.{
  Code, policy_invalid, host_desktop_rejected, assert_known_keys, assert_integer,
}
use useful.ComputerUse.Address.{is_private_or_local_host}
use useful.ComputerUse.Policy.{
  Policy, Url, setting, read_environment, read_bool, read_domains, canonical_hostnames,
  normalize_policy, policy_keys, schema, from_nat,
}

assert_integer-bounds :
    (v : Value) (lo hi : ℕ) (code : Code)
    → Ensures (λ n. (lo ≤ n) × (n ≤ hi)) (assert_integer v lo hi code)
unfolding assert_integer nat_in
assert_integer-bounds (int (pos n)) lo hi code = ground arith
assert_integer-bounds _ lo hi code = tt

pub record DomainsSound (private : Bool) (domains : List Text) : Type 0 where
  pub at_most : length domains ≤ 256
  pub distinct : all_distinct domains ≡ true
  pub in_order : IsSorted domains
  pub public : (private ≡ true) ⊎ (any is_private_or_local_host domains ≡ false)

-- The limits that every accepted policy keeps.
pub record IsSound (p : Policy) : Type 0 where
  pub steps : (1 ≤ p.max_steps) × (p.max_steps ≤ 10000)
  pub step_deadline : (1 ≤ p.step_deadline_ms) × (p.step_deadline_ms ≤ p.total_deadline_ms)
  pub total_deadline : p.total_deadline_ms ≤ 86400000
  pub screenshot : (1 ≤ p.max_screenshot_bytes) × (p.max_screenshot_bytes ≤ 64 * 1024 * 1024)
  pub redirects : p.max_redirects ≤ 20
  pub private : p.allow_private_domains ≡ true → p.development_mode ≡ true
  pub domains : DomainsSound (p.development_mode && p.allow_private_domains) p.allow_domains

-- A step whose value no later claim is about.
Ensures-then {κ} :
    {A B : Type 0} (Q : B → Type κ) (m : Result Code A) (f : A → Result Code B)
    → ((a : A) → Ensures Q (f a))
    → Ensures Q (m >>= f)
Ensures-then Q (ok a) f h = h a
Ensures-then Q (err e) f h = tt

module _ (url : Text → Option Url) where
  length-canonical_hostnames :
      (vs : List Value) → Ensures (λ hs. length hs ≡ length vs) (canonical_hostnames url vs)
  unfolding canonical_hostnames
  length-canonical_hostnames [] = refl
  length-canonical_hostnames (v ∷ vs) = ground (arith, length-canonical_hostnames vs)

  read_domains-DomainsSound :
      (private : Bool) (v : Value) → Ensures (DomainsSound private) (read_domains url private v)
  unfolding read_domains
  read_domains-DomainsSound private (arr es) =
      Ensures-guard (DomainsSound private) (leb (length (items es)) 256) policy_invalid _ λ few.
        Ensures-bind (λ hs. length hs ≡ length (items es)) (DomainsSound private)
          (canonical_hostnames url (items es)) _ (length-canonical_hostnames (items es))
          λ hs same. ground (
            arith,
            all_distinct-sort hs,
            sort-IsSorted hs,
            any-sort is_private_or_local_host hs,
            length-sort hs,
          )
  read_domains-DomainsSound private _ = tt

  normalize_policy-Ensures : (policy : Value) → Ensures IsSound (normalize_policy url policy)
  unfolding normalize_policy
  normalize_policy-Ensures given =
      let policy = default_to given (obj end) in
      let number = λ (key : String) (default lo hi : ℕ).
        assert_integer (setting key (from_nat default) policy) lo hi policy_invalid in
      let bounds = λ (key : String) (default lo hi : ℕ).
        assert_integer-bounds (setting key (from_nat default) policy) lo hi policy_invalid in
      let within = λ (lo hi n : ℕ). (lo ≤ n) × (n ≤ hi) in
      Ensures-then IsSound (assert_known_keys policy policy_keys policy_invalid) _ λ _.
        Ensures-then IsSound
          (read_environment (setting "environment" (str (codes "isolated-browser")) policy)) _
          λ environment.
            Ensures-then IsSound
              (guard (is_text schema (setting "schemaVersion" (str (codes schema)) policy))
                policy_invalid)
              _
              λ _.
                Ensures-bind (within 1 10000) IsSound (number "maxSteps" 25 1 10000) _
                  (bounds "maxSteps" 25 1 10000)
                  λ max_steps steps.
                    Ensures-bind (within 1 3600000) IsSound
                      (number "stepDeadlineMs" 30000 1 3600000) _
                      (bounds "stepDeadlineMs" 30000 1 3600000)
                      λ step step_in.
                        Ensures-bind (within 1 86400000) IsSound
                          (number "totalDeadlineMs" 300000 1 86400000) _
                          (bounds "totalDeadlineMs" 300000 1 86400000)
                          λ total total_in.
                            Ensures-guard IsSound (leb step total) policy_invalid _ λ ordered.
                              Ensures-bind (within 1 (64 * 1024 * 1024)) IsSound
                                (number "maxScreenshotBytes" (10 * 1024 * 1024) 1
                                  (64 * 1024 * 1024))
                                _
                                (bounds "maxScreenshotBytes" (10 * 1024 * 1024) 1
                                  (64 * 1024 * 1024))
                                λ screenshot screenshot_in.
                                  Ensures-bind (within 0 20) IsSound (number "maxRedirects" 0 0 20)
                                    _ (bounds "maxRedirects" 0 0 20)
                                    λ redirects redirects_in.
                                      Ensures-then IsSound
                                        (read_bool (setting "developmentMode" (bool false) policy))
                                        _
                                        λ development.
                                          Ensures-then IsSound
                                            (read_bool
                                              (setting "allowPrivateDomains" (bool false) policy))
                                            _
                                            λ private.
                                              Ensures-guard IsSound
                                                (not (private && not development)) policy_invalid _
                                                λ both.
                                                  Ensures-bind
                                                    (DomainsSound (development && private)) IsSound
                                                    (read_domains url (development && private)
                                                      (setting "allowDomains" (arr nil) policy))
                                                    _
                                                    (read_domains-DomainsSound
                                                      (development && private)
                                                      (setting "allowDomains" (arr nil) policy))
                                                    λ domains sound. record {
                                                      steps = steps;
                                                      step_deadline =
                                                          (step_in.0, leb→le step total ordered);
                                                      total_deadline = total_in.1;
                                                      screenshot = screenshot_in;
                                                      redirects = redirects_in.1;
                                                      private = λ h. ground arith;
                                                      domains = sound;
                                                    }

-- An accepted policy keeps every limit: the step, deadline, screenshot and redirect bounds, a step
-- deadline within the total one, private hosts only in development mode, and at most 256 distinct
-- hosts in order, none of them private or local unless private hosts are allowed.
pub normalize_policy-IsSound :
    (url : Text → Option Url) (given : Value) {p : Policy}
    → normalize_policy url given ≡ ok p
    → IsSound p
normalize_policy-IsSound url given e =
    Ensures-ok IsSound (normalize_policy url given) (normalize_policy-Ensures url given) e

-- A policy with known keys only that asks for the host desktop is refused with its own code, whatever the
-- other keys hold.
pub normalize_policy-host_desktop :
    (url : Text → Option Url) (given : Value)
    → assert_known_keys (default_to given (obj end)) policy_keys policy_invalid ≡ ok tt
    → is_text "host-desktop"
        (setting "environment" (str (codes "isolated-browser")) (default_to given (obj end)))
      ≡ true
    → normalize_policy url given ≡ err host_desktop_rejected
unfolding normalize_policy read_environment
normalize_policy-host_desktop url given known host = rw (known, host)
