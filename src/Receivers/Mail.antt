-- ===== src/Receivers/Mail.antt =====
-- internal/adapters/secondary/receiver/imap: parser.go and the search of client.go. What they use
-- of go-message and of go-imap is a parameter.
use e2e_framework.Prelude.{
  ℕ, Text, lit, ◌++◌, ◌==◌, ℤ, format_int, trim_space, lookup, insert, Option, none, some, Bool,
  List, [], ◌∷◌, if◌then◌else◌,
}
use e2e_framework.Domain.{
  Time, Vars, Message, imap_receiver_type, Error, wrap, internal, Result, ok, err,
}
use e2e_framework.Webhook.{field_or_empty}

pub record Address : Type 0 where
  pub name : Text
  pub address : Text

-- A part of a mail: its media type, and its body if it can be read.
pub record MailPart : Type 0 where
  pub content_type : Text
  pub body : Option Text

-- A mail as go-message reads it: the lists of addresses by field, the date in RFC 3339, the header
-- fields in order with their texts where these can be decoded, and the parts up to the first error.
pub record Mail : Type 0 where
  pub subject : Text
  pub address_list : Text → Result (List Address)
  pub date : Text
  pub header_fields : List (Text × Option Text)
  pub parts : List MailPart

unfoldable pub format_address : List Address → Text
format_address [] = []
format_address (a ∷ rest) =
    if a.name == [] then a.address else a.name ++ (lit " <" ++ (a.address ++ lit ">"))

-- `extractAddress`
unfoldable pub extract_address : Mail → Text → Text
extract_address m field = elim (m.address_list field) [
  | err e ↦ []
  | ok addresses ↦ format_address addresses
]

-- `extractRawHeaders`: the first text of every field.
unfoldable pub extract_raw_headers : List (Text × Option Text) → Vars → Vars
extract_raw_headers [] result = result
extract_raw_headers ((k, none) ∷ rest) result = extract_raw_headers rest result
extract_raw_headers ((k, some v) ∷ rest) result =
    extract_raw_headers rest
      (elim (lookup k result) [ some old ↦ result | none ↦ insert k v result ])

unfoldable pub set_if_empty : Text → Text → Vars → Vars
set_if_empty name v fields =
    if field_or_empty name fields == [] then insert name v fields else fields

-- The `switch` on the media type of a part.
unfoldable pub add_part : Text → Text → Vars → Vars
add_part content_type body fields =
    if content_type == lit "text/plain"
    then set_if_empty (lit "body") (trim_space body) fields
    else if content_type == lit "text/html"
    then set_if_empty (lit "html_body") (trim_space body) fields
    else fields

-- The loop over the parts.
unfoldable pub add_parts : List MailPart → Vars → Vars
add_parts [] fields = fields
add_parts (p ∷ rest) fields =
    add_parts rest (elim p.body [ none ↦ fields | some t ↦ add_part p.content_type t fields ])

unfoldable pub mail_fields : Mail → Vars
mail_fields m = add_parts m.parts (
    insert (lit "date") m.date (
      insert (lit "to") (extract_address m (lit "To")) (
        insert (lit "from") (extract_address m (lit "From"))
          (insert (lit "subject") m.subject []))))

pub data Criteria : Type 0 where
  subject_has body_has : Text → Criteria

-- `errorwrapper.Wrap` of an error that is not nil: internal/pkg/errorwrapper.
unfoldable pub wrap_internal : Error → Error
wrap_internal e = wrap internal e.text

-- A connection of go-imap after `Login` and `Select`: the numbers of the messages that a search
-- finds, and the body sections of the messages with a number.
pub record Mailbox (W : Type 0) : Type 0 where
  pub noop : W → Result (Unit {0}) × W
  pub search : Criteria → W → Result (List ℕ) × W
  pub fetch : ℕ → W → Result (List (List Text)) × W

-- How go-imap connects, and logs out.
pub record ImapDialer (Conn W : Type 0) : Type 0 where
  pub dial : Text → W → Result Conn × W
  pub dial_tls : Text → Text → W → Result Conn × W
  pub login : Conn → Text → Text → W → Result (Unit {0}) × W
  pub select : Conn → Text → W → Result (Unit {0}) × W
  pub logout : Conn → W → Result (Unit {0}) × W

pub record GoImapClient : Type 0 where
  pub host : Text
  pub port : ℤ
  pub username : Text
  pub password : Text
  pub mailbox : Text
  pub use_tls : Bool

unfoldable pub and_then : {A B W : Type 0} → Result A × W → (A → W → Result B × W) → Result B × W
and_then (ok a, w) next = next a w
and_then (err e, w) next = (err (wrap_internal e), w)

-- `Connect`: the connection that the client keeps if it succeeds.
unfoldable pub connect_mailbox :
    {Conn W : Type 0} → ImapDialer Conn W → GoImapClient → W → Result Conn × W
connect_mailbox d c w =
    let addr = c.host ++ (lit ":" ++ format_int c.port) in
    and_then (if c.use_tls then d.dial_tls addr c.host w else d.dial addr w) (λ conn w1.
      and_then (d.login conn c.username c.password w1)
        (λ _ w2. and_then (d.select conn c.mailbox w2) (λ _ w3. (ok conn, w3))))

-- `Disconnect`, of a client that may have no connection.
unfoldable pub disconnect_mailbox :
    {Conn W : Type 0} → ImapDialer Conn W → Option Conn → W → Result (Unit {0}) × W
disconnect_mailbox d none w = (ok tt, w)
disconnect_mailbox d (some conn) w = d.logout conn w

module _ {W : Type 0} (read : Text → Result Mail) (now : W → Time × W) where
  -- `ParseMessage`
  unfoldable pub parse_message : Text → Text → W → Result Message × W
  parse_message run_id raw w = elim (read raw) [
    | err e ↦ (err (wrap internal (lit "failed to parse email: " ++ e.text)), w)
    | ok m ↦
        let (t, w') = now w in
        (
          ok (record {
            run_id = run_id;
            receiver_type = imap_receiver_type;
            received_at = t;
            headers = extract_raw_headers m.header_fields [];
            fields = mail_fields m;
            raw = raw;
          }),
          w',
        )
  ]

  -- The message that `ParseMessage` makes of the first section of the first mail, if there is one.
  unfoldable pub first_section : Text → List (List Text) → W → Result (Option Message) × W
  first_section run_id [] w = (ok none, w)
  first_section run_id ([] ∷ mails) w = (ok none, w)
  first_section run_id ((raw ∷ sections) ∷ mails) w =
      let (r, w') = parse_message run_id raw w in
      elim r [ err e ↦ (err e, w') | ok m ↦ (ok (some m), w') ]

  module _ (box : Mailbox W) where
    unfoldable pub fetch_first : Text → List ℕ → W → Result (Option Message) × W
    fetch_first run_id [] w = (ok none, w)
    fetch_first run_id (n ∷ ns) w =
        let (r, w') = box.fetch n w in
        elim r [ err e ↦ (err (wrap_internal e), w') | ok mails ↦ first_section run_id mails w' ]

    -- `searchIn`
    unfoldable pub search_in : Text → Criteria → W → Result (Option Message) × W
    search_in run_id criteria w =
        let (r, w') = box.search criteria w in
        elim r [ err e ↦ (err (wrap_internal e), w') | ok ns ↦ fetch_first run_id ns w' ]

    unfoldable pub search_both : Text → W → Result (Option Message) × W
    search_both run_id w =
        let (r, w') = search_in run_id (subject_has run_id) w in
        elim r [
          | err e ↦ (err e, w')
          | ok found ↦ elim found [
            | some m ↦ (ok (some m), w')
            | none ↦ search_in run_id (body_has run_id) w'
          ]
        ]

    -- `SearchByRunID`, of a client that is connected.
    unfoldable pub search_by_run_id : Text → W → Result (Option Message) × W
    search_by_run_id run_id w =
        let (r, w') = box.noop w in
        elim r [ err e ↦ (err (wrap_internal e), w') | ok _ ↦ search_both run_id w' ]
