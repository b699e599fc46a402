-- ===== src/Base/Text/Laws.antt =====
-- A prefix or a suffix that was put on a text is found there, and taken off again.
use Prim.Native.Nat.{◌+◌, ◌-◌}
use Prim.Native.String.{String, ◌++◌, len, slice}
use mathlib.Core.Path.{◌≡◌, refl, sym, ap, ◌∙◌}
use mathlib.Core.Bool.{true, or-true}
use native.Mathlib.Omega.{arith}
use text.Mathlib.TextEquality.{eq_iff, slice-prefix}
use text.Mathlib.TextLemmas.{nil-append, cons-append, append-nil, append_assoc}
use text.Mathlib.TextPositions.{eq_refl, len-append, slice-append_left, slice-append_right}
use live_pod_migration.Base.Tests.{leb}
use live_pod_migration.Base.Text.{has_prefix, trim_prefix, has_suffix, trim_suffix, contains}

pub has_prefix-append : (prefix s : String) → has_prefix (prefix ++ s) prefix ≡ true
unfolding has_prefix
has_prefix-append prefix s = rw (slice-append_left prefix s) (eq_refl prefix)

pub trim_prefix-append : (prefix s : String) → trim_prefix (prefix ++ s) prefix ≡ s
unfolding trim_prefix
trim_prefix-append prefix s =
    rw (has_prefix-append prefix s) (rw (len-append prefix s) (slice-append_right prefix s))

pub has_suffix-append : (s suffix : String) → has_suffix (s ++ suffix) suffix ≡ true
unfolding has_suffix
has_suffix-append s suffix =
    let fits : leb (len suffix) (len s + len suffix) ≡ true = ground arith in
    let start : len s + len suffix - len suffix ≡ len s = omega arith in
    rw (len-append s suffix) (rw (fits, start) (rw (slice-append_right s suffix) (eq_refl suffix)))

pub trim_suffix-append : (s suffix : String) → trim_suffix (s ++ suffix) suffix ≡ s
unfolding trim_suffix
trim_suffix-append s suffix =
    let start : len s + len suffix - len suffix ≡ len s = omega arith in
    rw (has_suffix-append s suffix)
      (rw (len-append s suffix) (rw start (slice-append_left s suffix)))

contains_of_prefix : (s part : String) → has_prefix s part ≡ true → contains s part ≡ true
unfolding contains has_prefix
contains_of_prefix String.[] part h = h
contains_of_prefix (String.◌∷◌ c s) part h = rw h refl

-- What a text holds is found in it.
pub contains-append : (s part t : String) → contains (s ++ (part ++ t)) part ≡ true
unfolding contains
contains-append String.[] part t =
    rw (nil-append (part ++ t)) (contains_of_prefix (part ++ t) part (has_prefix-append part t))
contains-append (String.◌∷◌ c s) part t =
    rw (cons-append c s (part ++ t)) (rw (contains-append s part t) (or-true _))

pub append_of_has_prefix :
    (s prefix : String) → has_prefix s prefix ≡ true → (t : String) × (prefix ++ t ≡ s)
unfolding has_prefix
append_of_has_prefix s prefix h =
    let (t, e) = slice-prefix s (len prefix) in
    (t, rw ((eq_iff (slice s 0 (len prefix)) prefix).0 h) at e)

pub contains-suffix : (s part : String) → contains (s ++ part) part ≡ true
contains-suffix s part =
    sym (ap (λ u. contains (s ++ u) part) (append-nil part)) ∙ contains-append s part ""

pub contains-joined : (s between part : String) → contains (s ++ between ++ part) part ≡ true
contains-joined s between part =
    sym (ap (λ u. contains u part) (append_assoc s between part))
    ∙ contains-suffix (s ++ between) part
