-- ===== src/Iscsi/Value/Boolean.antt =====
-- Booleans in a negotiation (src/istgt/istgt_iscsi.c: ISPT_BOOLEAN_OR, ISPT_BOOLEAN_AND).
use istgt.Prelude.{Name, Bool, true, false, ◌&&◌, ◌||◌, str_case_eq, str_eq, strlwr, ◌≡◌, refl}
use istgt.Misc.Strings.{codes}
use istgt.Iscsi.Conn.{IscsiConn}
use istgt.Iscsi.Param.{ispt_boolean_or, ispt_boolean_and}
use istgt.Iscsi.Value.{update_val, take_bool, negotiate_value}

abbrev pub yes_no : Bool → Name
yes_no true = codes "Yes"
yes_no false = codes "No"

-- An offer of Yes or No to a Boolean parameter ends in the disjunction of it with the value that
-- the parameter has, for the type ISPT_BOOLEAN_OR, and in the conjunction for ISPT_BOOLEAN_AND.
negotiate_value-yes_no :
    (conn : IscsiConn) (key valid_list : Name) (a c : Bool)
    → (negotiate_value conn key (yes_no a) ispt_boolean_or valid_list (yes_no c)
        ≡ update_val (yes_no (a || c)))
      × (negotiate_value conn key (yes_no a) ispt_boolean_and valid_list (yes_no c)
          ≡ update_val (yes_no (a && c)))
unfolding negotiate_value take_bool str_case_eq str_eq strlwr
negotiate_value-yes_no conn key valid_list true true = (refl, refl)
negotiate_value-yes_no conn key valid_list true false = (refl, refl)
negotiate_value-yes_no conn key valid_list false true = (refl, refl)
negotiate_value-yes_no conn key valid_list false false = (refl, refl)
