-- ===== src/Auth/Recovery/Examples.antt =====
-- Recovery at a concrete account.
use pcos.Prelude.{
  All-replicate, ◌<◌, arith, ◌≡◌, refl, List, [], ◌∷◌, none, some, true, false, All, replicate,
  Text, codes, text_eq, leb, ◌&&◌, trim, trim_start_by, trim_end_by, is_whitespace, utf8, utf8_char,
}
use pcos.Common.Digest.{transcript, digest, padded}
use pcos.Common.Error.{unauthorized}
use pcos.Common.Result.{ok, err}
use pcos.Common.Validation.{validate_password}
use pcos.Common.Jwt.{Claims}
use pcos.Auth.{User, Accounts, find_user}
use pcos.Auth.Service.{Services, has_email}
use pcos.Auth.Recovery.{
  split_all, drop_empty, split_whitespace, word_index, join, take_bits, regroup, word_numbers,
  generate_bip39_phrase, lookup_all, read_numbers, check_numbers, validate_bip39_phrase,
  hash_phrase, check_phrase, find_key, VerifyRecoveryRequest, verify_recovery_phrase,
}
use pcos.Auth.Recovery.Once.{IsRevoked, recovery_once}

abbrev services : Services
services = record {
  sha256 = transcript;
  sha1 = record {
    digest = λ bytes. replicate 20 7;
    length-digest = λ bytes. refl;
    digest-IsByte = λ bytes. All-replicate (λ b. b < 256) 20 7 (omega arith);
  };
  unicode = record {
    is_uppercase = λ c. leb b'A' c && leb c b'Z';
    is_lowercase = λ c. leb b'a' c && leb c b'z';
    to_lowercase = λ t. t;
  };
  jwt = record { encode = λ (c : Claims) secret. none; decode = λ token secret now. none };
  hash_password = λ p. some p;
  verify_password = λ p h. some (text_eq p h);
}

abbrev words : List Text
words = codes "abandon" ∷ codes "ability" ∷ []

zeros_are_valid :
    validate_bip39_phrase services words (generate_bip39_phrase services words (replicate 16 0))
    ≡ ok tt
unfolding validate_bip39_phrase generate_bip39_phrase word_numbers regroup take_bits join
    split_whitespace split_all drop_empty word_index lookup_all check_numbers read_numbers digest
    padded is_whitespace
zeros_are_valid = refl

abbrev user : User
user = record {
  id = 1;
  email = codes "a@b.c";
  display_name = codes "a";
  password_hash = codes "old";
  role = codes "user";
  is_active = true;
  totp_enabled = false;
  totp_secret = none;
}

abbrev phrase : Text
phrase = codes "spare key"

abbrev accounts : Accounts
accounts = record {
  users = user ∷ [];
  tokens = [];
  recovery_keys =
      record {
        id = codes "rec_1";
        user_id = 1;
        recovery_hash = hash_phrase services words phrase;
        is_used = false;
      }
      ∷ [];
  audit_log = [];
}

abbrev request : VerifyRecoveryRequest services words
request = record {
  email = codes "a@b.c";
  recovery_phrase = some phrase;
  recovery_key = none;
  new_password = codes "Passw0rd";
}

strong : validate_password services.unicode (codes "Passw0rd") ≡ ok tt
unfolding validate_password utf8 utf8_char
strong = refl

free_form : check_phrase services words phrase ≡ ok tt
unfolding check_phrase split_whitespace split_all drop_empty is_whitespace
free_form = refl

recovery_once_example :
    let s' = (verify_recovery_phrase services words request accounts).1 in
    ((verify_recovery_phrase services words request accounts).0 ≡ ok tt)
    × (find_user (has_email (trim (codes "a@b.c"))) s'.users
        ≡ some (record user { password_hash = codes "Passw0rd" }))
    × All (IsRevoked 1) s'.tokens
    × (verify_recovery_phrase services words request s'
        ≡ (err (unauthorized "Invalid or already consumed recovery phrase"), s'))
unfolding find_user find_key trim trim_start_by trim_end_by is_whitespace hash_phrase digest padded
    utf8 utf8_char
recovery_once_example =
    recovery_once services words request accounts phrase user
      (record {
        id = codes "rec_1";
        user_id = 1;
        recovery_hash = hash_phrase services words phrase;
        is_used = false;
      })
      (codes "Passw0rd") strong refl free_form refl refl refl ((λ e f. refl), tt)
