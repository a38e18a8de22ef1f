-- ===== src/Receivers/Imap.antt =====
-- internal/adapters/secondary/receiver/imap/receiver.go, over the interface of
-- internal/core/ports/imap_client.go.
use e2e_framework.Prelude.{
  Text, lit, ◌++◌, ◌==◌, ◌*◌, ◌^◌, pos, parse_int64, contains_text, Option, none, some, Bool, [],
  ◌∷◌, if◌then◌else◌,
}
use e2e_framework.Domain.{
  Duration, Vars, Message, Error, wrap, configuration, internal, timeout, Result, ok, err,
}
use e2e_framework.Webhook.{field_or_empty}
use e2e_framework.Receivers.Poll.{Waiting, poll}
use e2e_framework.Receivers.Webhook.{not_started}
use e2e_framework.Receivers.Mail.{GoImapClient}

pub record ImapClient (W : Type 0) : Type 0 where
  pub connect : W → Result (Unit {0}) × W
  pub search_by_run_id : Text → W → Result (Option Message) × W
  pub disconnect : W → Result (Unit {0}) × W

-- What `strconv.ParseBool` reads as true; on all else `tls` is false.
unfoldable pub parse_bool : Text → Bool
parse_bool t =
    contains_text (lit "1" ∷ lit "t" ∷ lit "T" ∷ lit "TRUE" ∷ lit "true" ∷ lit "True" ∷ []) t

unfoldable pub requires_option : Text → Error
requires_option name =
    wrap configuration (lit "imap receiver requires '" ++ (name ++ lit "' option"))

unfoldable pub mailbox_or_inbox : Text → Text
mailbox_or_inbox mailbox = if mailbox == [] then lit "INBOX" else mailbox

-- `NewIMAPReceiver`, as far as the client that it makes; a missing option is empty. The text of
-- the error of `strconv.Atoi` is given.
unfoldable pub new_imap_client : (Text → Text) → Vars → Result GoImapClient
new_imap_client atoi_error options =
    let host = field_or_empty (lit "host") options in
    let port = field_or_empty (lit "port") options in
    if host == []
    then err (requires_option (lit "host"))
    else if port == []
    then err (requires_option (lit "port"))
    else (elim (parse_int64 port) [
      | none ↦
          err (wrap configuration (lit "imap 'port' option must be a number: " ++ atoi_error port))
      | some n ↦ ok (record {
        host = host;
        port = n;
        username = field_or_empty (lit "username") options;
        password = field_or_empty (lit "password") options;
        mailbox = mailbox_or_inbox (field_or_empty (lit "mailbox") options);
        use_tls = parse_bool (field_or_empty (lit "tls") options);
      })
    ])

unfoldable pub imap_timeout : Text → Text → Error
imap_timeout run_id done =
    wrap timeout (lit "timeout waiting for email with runID " ++ (run_id ++ (lit ": " ++ done)))

-- `time.NewTicker(2 * time.Second)`
abbrev pub imap_interval : Duration
imap_interval = pos (2 * 10 ^ 9)

module _ {W : Type 0} (client : ImapClient W) (env : Waiting W) where
  -- `Start`: the run id that the receiver has afterwards, with the result.
  unfoldable pub start_imap : Text → Text → W → Result (Unit {0}) × Text × W
  start_imap run_id old w =
      let (r, w') = client.connect w in
      elim r [
        | err e ↦
            (err (wrap internal (lit "failed to connect to IMAP server: " ++ e.text)), old, w')
        | ok _ ↦ (ok tt, run_id, w')
      ]

  unfoldable pub search_inbox : Text → W → Result (Option Message) × W
  search_inbox run_id w =
      let (r, w') = client.search_by_run_id run_id w in
      elim r [
        | err e ↦ (err (wrap internal (lit "failed to search inbox: " ++ e.text)), w')
        | ok found ↦ (ok found, w')
      ]

  -- `Collect`
  unfoldable pub collect_imap : Text → Duration → W → Result Message × W
  collect_imap run_id limit w =
      if run_id == []
      then (err not_started, w)
      else poll (search_inbox run_id) (env.tick imap_interval) (imap_timeout run_id env.done)
          (env.ticks limit w) w

  -- `Stop`
  unfoldable pub stop_imap : W → Result (Unit {0}) × W
  stop_imap w = client.disconnect w
