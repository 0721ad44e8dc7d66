-- ===== src/Enrollment/Once.antt =====
-- A pairing code is consumed at most once (internal/mysqlstore/device_store.go).
use roblox_mcp_gateway.Prelude.{
  ℕ, suc, ◌+◌, ◌≤◌, ◌<◌, String, ◌≡◌, refl, inl, inr, Bool, true, false, ◌&&◌, List, [], ◌∷◌, some,
  Except, ok, err, ◌==◌, nat_comparable, string_comparable, if◌then◌else◌, arith, eq_iff, eq_self,
  Option-cases,
}
use roblox_mcp_gateway.Prelude.Table.{select, count_where, update}
use roblox_mcp_gateway.Enrollment.{
  Error, EnrollmentCode, Store, is_null, has_digest, same_code, insert_enrollment_code, redeemable,
  identity_of, marks, mark_consumed, consume_enrollment_code,
}

pub data Op : Type 0 where
  insert : EnrollmentCode → Op
  consume : String → ℕ → Op

unfoldable pub apply : Store → Op → Store
apply s (insert code) = (insert_enrollment_code s code).1
apply s (consume digest now) = (consume_enrollment_code s digest now).1

abbrev is_ok {ℓ} : {A : Type ℓ} → Except Error A → Bool
is_ok (ok a) = true
is_ok (err e) = false

unfoldable pub redeems : String → Store → Op → Bool
redeems d s (insert code) = false
redeems d s (consume digest now) = is_ok (consume_enrollment_code s digest now).0 && digest == d

-- How many of a sequence of operations consume a code of the digest.
abbrev pub redeemed : String → Store → List Op → ℕ
redeemed d s [] = 0
redeemed d s (o ∷ ops) =
    (let more = redeemed d (apply s o) ops in if redeems d s o then suc more else more)

unfoldable pub is_open : String → EnrollmentCode → Bool
is_open d c = has_digest d c && is_null c.consumed_at

open_le :
    (d : String) (cs : List EnrollmentCode)
    → count_where (is_open d) cs ≤ count_where (has_digest d) cs
unfolding count_where is_open
open_le d [] = omega arith
open_le d (c ∷ cs) = ground (arith, open_le d cs)

digest-update :
    (d id : String) (now : ℕ) (cs : List EnrollmentCode)
    → count_where (has_digest d) (update (marks id) (mark_consumed now) cs)
      ≡ count_where (has_digest d) cs
unfolding count_where update has_digest mark_consumed
digest-update d id now [] = refl
digest-update d id now (c ∷ cs) = ground (arith, digest-update d id now cs)

open-update_le :
    (d id : String) (now : ℕ) (cs : List EnrollmentCode)
    → count_where (is_open d) (update (marks id) (mark_consumed now) cs)
      ≤ count_where (is_open d) cs
unfolding count_where update is_open has_digest mark_consumed
open-update_le d id now [] = omega arith
open-update_le d id now (c ∷ cs) = ground (arith, open-update_le d id now cs)

open-update_lt :
    (d : String) (now : ℕ) (cs : List EnrollmentCode) (x : EnrollmentCode)
    → select (redeemable d now) cs ≡ some x
    → count_where (is_open d) (update (marks x.id) (mark_consumed now) cs)
      < count_where (is_open d) cs
unfolding count_where update is_open has_digest mark_consumed redeemable marks select
open-update_lt d now [] x h = ground arith
open-update_lt d now (c ∷ cs) x h =
    ground (arith, open-update_lt d now cs x, open-update_le d x.id now cs, eq_self x.id)

-- What can still be redeemed: one code while the digest is not there, else the open ones.
left : String → Store → ℕ
left d s = if count_where (has_digest d) s.codes == 0 then 1 else count_where (is_open d) s.codes

insert-clash :
    (code : EnrollmentCode) (cs : List EnrollmentCode)
    → count_where (has_digest code.digest) cs ≤ count_where (same_code code) cs
unfolding count_where has_digest same_code
insert-clash code [] = omega arith
insert-clash code (c ∷ cs) = ground (arith, insert-clash code cs)

insert-left :
    (d : String) (s : Store) (code : EnrollmentCode)
    → count_where (has_digest d) s.codes ≤ 1
    → (count_where (has_digest d) (insert_enrollment_code s code).1.codes ≤ 1)
      × (left d (insert_enrollment_code s code).1 + 0 ≤ left d s)
unfolding left insert_enrollment_code count_where has_digest is_open
insert-left d s code h =
    ground (arith, insert-clash code s.codes, eq_iff code.digest d, open_le d s.codes)

apply-left :
    (d : String) (s : Store) (o : Op)
    → count_where (has_digest d) s.codes ≤ 1
    → (count_where (has_digest d) (apply s o).codes ≤ 1)
      × (left d (apply s o) + (if redeems d s o then 1 else 0) ≤ left d s)
unfolding apply redeems left consume_enrollment_code
apply-left d s (insert code) h = insert-left d s code h
apply-left d s (consume digest now) h =
    elim (Option-cases (select (redeemable digest now) s.codes)) [
      | inl e ↦ ground arith
      | inr (c, e) ↦ elim (Option-cases (select (identity_of c.user_id) s.identities)) [
        | inl n ↦ ground arith
        | inr (i, n) ↦ ground (
          arith,
          digest-update d c.id now s.codes,
          open-update_le d c.id now s.codes,
          open-update_lt digest now s.codes c e,
          eq_iff digest d,
          open_le d s.codes,
        )
      ]
    ]

redeemed-left :
    (d : String) (s : Store) (ops : List Op)
    → count_where (has_digest d) s.codes ≤ 1
    → redeemed d s ops ≤ left d s
redeemed-left d s [] h = omega arith
redeemed-left d s (o ∷ ops) h = ground (arith, apply-left d s o h, redeemed-left d (apply s o) ops)

-- In a store with at most one code of a digest, over any sequence of inserts and consumptions, the code
-- of the digest is consumed at most once.
pub consumed_once :
    (d : String) (s : Store) (ops : List Op)
    → count_where (has_digest d) s.codes ≤ 1
    → redeemed d s ops ≤ 1
unfolding left
consumed_once d s ops h = ground (arith, redeemed-left d s ops h, open_le d s.codes)
