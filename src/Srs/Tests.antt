-- ===== src/Srs/Tests.antt =====
-- Tests of the sender rewriting, with a map with times for redis, and its theorems at concrete inputs.
use clue_getter.Prelude.{
  ℕ, ◌+◌, ◌<◌, ◌≤◌, ◌≡◌, refl, true, not, Option, none, some, [], ◌∷◌, arith, ltb, if◌then◌else◌,
  keep,
}
use clue_getter.Prelude.Text.{Text, text, cut, eq_refl, to_lower}
use clue_getter.Prelude.Go.{ok}
use clue_getter.Dict.{Dict, lookup, insert, lookup-insert}
use clue_getter.Address.{from_string, to_string}
use clue_getter.Message.{permit, reject, new_header, Message, new_message}
use clue_getter.Srs.{
  Redis, SrsConfig, is_srs_address, lookup_address, persist, recipient_check, header_domains,
  first_or_empty, get_rewrite_domain, get_from_address, message_check, is_forwarded,
}
use clue_getter.Srs.Domains.{is_domain_of, get_rewrite_domain_distinct}
use clue_getter.Srs.Bounces.{bounce_reaches_sender}

-- Each key with its value and the time of its end.
abbrev value_at : ℕ → Option (ℕ × Text) → Text
value_at now none = []
value_at now (some (end, value)) = if ltb now end then value else []

abbrev timed : Redis (Dict (ℕ × Text))
timed = record {
  get = λ store now key. value_at now (lookup key store);
  put = λ store now key value ttl. insert key (now + ttl, value) store;
}

get-put_timed :
    (store : Dict (ℕ × Text)) (now later : ℕ) (key value : Text) (ttl : ℕ)
    → now ≤ later
    → later < now + ttl
    → timed.get (timed.put store now key value ttl) later key ≡ value
get-put_timed store now later key value ttl after before =
    rw (lookup-insert key key (now + ttl, value) store, eq_refl key) (ground arith)

config : SrsConfig
unfolding message_check get_rewrite_domain get_from_address is_forwarded new_message from_string
    to_string header_domains is_srs_address lookup_address persist recipient_check lookup insert
    to_lower cut
config = record { enabled = true; recipient_header = text "Delivered-To" }

abbrev forwarded : Message ℕ
forwarded = record (new_message 0 []) {
  queue_id = text "3A";
  sender = from_string (text "Ann@a.org");
  rcpt = from_string (text "bob@b.org") ∷ [];
  headers = new_header (text "delivered-to") (text "bob@c.org") ∷ [];
}

abbrev rewritten : Text
rewritten = text "SRS0=3A=a.org=Ann@c.org"

abbrev doubled : Message ℕ
doubled = record forwarded {
  headers =
      new_header (text "Delivered-To") (text "eve@b.org")
      ∷ new_header (text "Delivered-To") (text "kim@B.org")
      ∷ [];
}

get_from_address_test : get_from_address config forwarded ≡ ok rewritten
unfolding config
get_from_address_test = refl

recipient_check_test :
    recipient_check timed config [] 0 (from_string (text "srs0=x=y=z@c.org")) ≡ (reject, [])
unfolding config
recipient_check_test = refl

get_rewrite_domain_distinct_example :
    get_rewrite_domain config forwarded
    ≡ ok (
        first_or_empty (
          keep
            (λ d. not (is_domain_of forwarded.rcpt d))
            (header_domains config forwarded.headers)))
unfolding config
get_rewrite_domain_distinct_example = get_rewrite_domain_distinct config forwarded (tt, tt)

bounce_reaches_sender_example :
    (is_srs_address config (from_string (to_lower rewritten)) ≡ true)
    × (lookup_address timed
          (persist timed [] 5 forwarded rewritten)
          900
          (from_string (to_lower rewritten))
        ≡ to_string forwarded.sender)
    × (recipient_check timed config
          (persist timed [] 5 forwarded rewritten)
          900
          (from_string (to_lower rewritten))
        ≡ (permit, []))
unfolding config
bounce_reaches_sender_example =
    bounce_reaches_sender timed get-put_timed config forwarded rewritten rewritten [] 5 900 refl
      (λ e. cc) refl (omega arith) (omega arith)
