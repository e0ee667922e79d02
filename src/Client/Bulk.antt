-- ===== src/Client/Bulk.antt =====
-- The unit of a bulk request (snmpgo.go).
use snmpclient.Prelude.{
  ◌≡◌, refl, false, ◌||◌, Option, none, some, List, Outcome, ok, >>=-elim, arith,
}
use snmpclient.Prelude.Int.{ℤ, pos, negsuc, ◌≤ℤ◌, ltb_ℤ}
use snmpclient.Oid.{Oid}
use snmpclient.Variable.{max_int32}
use snmpclient.Pdu.{
  Pdu, v1, scoped, base, get_bulk_request, new_pdu_with_oids, set_nonrepeaters, set_max_repetitions,
}
use snmpclient.Client.{ClientArguments, refuse_if, set_bulk, bulk_pdu}
use snmpclient.Client.Accepted.{refuse_if-eq-ok}

-- A number from 0 to the greatest int32.
abbrev pub IsCount : ℤ → Type 0
IsCount z = (pos 0 ≤ℤ z) × (z ≤ℤ pos max_int32)

IsCount-tests : (z : ℤ) → (ltb_ℤ z (pos 0) || ltb_ℤ (pos max_int32) z) ≡ false → IsCount z
IsCount-tests (pos n) h = ground arith
IsCount-tests (negsuc n) h = ground arith

later_version : (v : ℤ) → ltb_ℤ v (pos 1) ≡ false → pos 1 ≤ℤ v
later_version (pos n) h = ground arith
later_version (negsuc n) h = ground arith

ok_inj : (p q : Pdu) → ◌≡◌ {A = Outcome Pdu} (ok p) (ok q) → q ≡ p
ok_inj p q h = ground arith

set_fields :
    (nr mr : ℤ) (p : Pdu)
    → ((base (set_max_repetitions mr (set_nonrepeaters nr p))).error_status ≡ nr)
      × ((base (set_max_repetitions mr (set_nonrepeaters nr p))).error_index ≡ mr)
unfolding base set_max_repetitions set_nonrepeaters
set_fields nr mr (v1 p) = (refl, refl)
set_fields nr mr (scoped p) = (refl, refl)

set_bulk-eq-ok :
    (nr mr : ℤ) (m : Option Pdu) (p : Pdu)
    → set_bulk nr mr m ≡ ok p
    → ((base p).error_status ≡ nr) × ((base p).error_index ≡ mr)
unfolding set_bulk
set_bulk-eq-ok nr mr none p h = ground arith
set_bulk-eq-ok nr mr (some q) p h = rw (ok_inj _ p h) (set_fields nr mr q)

-- `GetBulkRequest` sends a unit only for a version after V1 and with numbers of non-repeaters and
-- of repetitions from 0 to the greatest int32, and the unit has these two in the places of the
-- error status and the error index.
pub bulk_pdu_lem :
    (a : ClientArguments) (oids : List Oid) (nr mr : ℤ) (p : Pdu)
    → bulk_pdu a oids nr mr ≡ ok p
    → (pos 1 ≤ℤ a.version)
      × IsCount nr
      × IsCount mr
      × ((base p).error_status ≡ nr)
      × ((base p).error_index ≡ mr)
unfolding bulk_pdu
bulk_pdu_lem a oids nr mr p h = >>=-elim (refuse_if (ltb_ℤ a.version (pos 1))) _ h (λ _ v h1.
    >>=-elim (refuse_if (ltb_ℤ nr (pos 0) || ltb_ℤ (pos max_int32) nr)) _ h1 (λ _ n h2.
      >>=-elim (refuse_if (ltb_ℤ mr (pos 0) || ltb_ℤ (pos max_int32) mr)) _ h2 (λ _ m h3.
        >>=-elim (new_pdu_with_oids a.version get_bulk_request oids) _ h3 (λ q _ h4.
          let (status, index) = set_bulk-eq-ok nr mr q p h4 in
          (
            later_version a.version (refuse_if-eq-ok _ v),
            IsCount-tests nr (refuse_if-eq-ok _ n),
            IsCount-tests mr (refuse_if-eq-ok _ m),
            status,
            index,
          )))))
