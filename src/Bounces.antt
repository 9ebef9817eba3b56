-- ===== src/Bounces.antt =====
-- bounceHandler/bounceHandler.go: reports of mail that could not be delivered. Reading of mail, of
-- multipart bodies and of base64, and the database are parameters.
pub mod Reasons
mod Tests
use clue_getter.Prelude.{
  ℕ, Bool, true, false, not, ◌&&◌, ◌||◌, Option, none, some, List, [], ◌∷◌, ◌++◌, eqb, map,
  if◌then◌else◌,
}
use clue_getter.Prelude.Go.{Go, ok, panic, ◌>>=◌}
use clue_getter.Prelude.Text.{
  Text, text, contains, starts_with, trim_left, is_empty, push_head, ◌==◌,
}
use clue_getter.Message.Headers.{message_generate_message_id}

-- A part of a multipart body: its Content-Description, and its content, none for an error.
pub record Part : Type 0 where
  pub description : Text
  pub content : Option Text

-- What the module uses of packages mail, mime and multipart: none stands for an error; the parts end
-- with the end of the body, or in an error.
pub record MailReader (H : Type 0) : Type 0 where
  pub read_message : Text → Option (H × Text)
  pub get : H → Text → Text
  pub parse_media_type : Text → Option (Text × Text)
  pub parts : Text → Text → List Part × Bool

pub record RcptReport : Type 0 where
  pub status : Text
  pub orig_recipient : Text
  pub final_recipient : Text
  pub remote_mta : Text
  pub diag_code : Text

pub record Bounce (H : Type 0) : Type 0 where
  pub instance_id : ℕ
  -- the header that the date is read from
  pub date_of : H
  pub mta : Text
  pub queue_id : Text
  pub message_id : Text
  pub sender : Text
  pub rcpt_reports : List RcptReport

-- What the loop over the parts has found.
pub record Found : Type 0 where
  pub delivery_report : Text
  pub notification : Text
  pub msg_hdrs : Text

abbrev crlf_crlf : Text
crlf_crlf = 13 ∷ (10 ∷ (13 ∷ (10 ∷ [])))

unfoldable pub take_part : Text → Text → Found → Found
unfolding ◌==◌
take_part description slurp found =
    if description == text "Notification"
    then record found { notification = slurp }
    else if description == text "Delivery report"
    then record found { delivery_report = slurp }
    else if description == text "Undelivered Message Headers"
    then record found { msg_hdrs = slurp }
    else found

abbrev pub read_part : Text → Option Text → Found → Go Found
unfolding take_part
read_part description none found = panic
read_part description (some slurp) found = ok (take_part description slurp found)

unfoldable pub take_parts : List Part → Bool → Found → Go Found
unfolding read_part
take_parts [] at_end found = if at_end then ok found else panic
take_parts (part ∷ parts) at_end found =
    read_part part.description part.content found >>= take_parts parts at_end

-- strings.Split by two newlines
unfoldable pub paragraphs : Text → List Text
paragraphs [] = [] ∷ []
paragraphs (c ∷ []) = (c ∷ []) ∷ []
paragraphs (c ∷ (d ∷ s)) =
    let rest = paragraphs s in
    let longer = paragraphs (d ∷ s) in
    if eqb c 10 && eqb d 10 then [] ∷ rest else push_head c longer

-- `bounceHandlerShouldReportBayes`
unfoldable pub should_report_bayes : Text → Bool
unfolding contains
should_report_bayes diag_code =
    contains (text "spam") diag_code
    || (contains (text "unsolicited") diag_code
        || contains (text "contained unsafe content") diag_code)

-- The last diagnostic code that is reported, empty for none.
unfoldable pub bayes_reason : Text → List RcptReport → Text
unfolding should_report_bayes
bayes_reason reason [] = reason
bayes_reason reason (r ∷ rs) =
    bayes_reason (if should_report_bayes r.diag_code then r.diag_code else reason) rs

module _ {H : Type 0} (mail : MailReader H) where
  abbrev must_read : Text → Go (H × Text)
  must_read s = elim (mail.read_message s) [ none ↦ panic | some parsed ↦ ok parsed ]

  abbrev with_header : H → Found → Go (H × Found)
  with_header hdrs found = ok (hdrs, found)

  abbrev read_parts : H × Text → Option (Text × Text) → Go (H × Found)
  unfolding take_parts starts_with
  read_parts (hdrs, body) none = panic
  read_parts (hdrs, body) (some (media_type, boundary)) =
      if not (starts_with (text "multipart/") media_type)
      then panic
      else take_parts (mail.parts body boundary).0 (mail.parts body boundary).1
          (record { delivery_report = []; notification = []; msg_hdrs = [] })
        >>= with_header hdrs

  -- `bounceHandlerParseReportMime`
  unfoldable pub parse_report_mime : Text → Go (H × Found)
  unfolding read_parts
  parse_report_mime msg = must_read msg >>= λ parsed.
      read_parts parsed (mail.parse_media_type (mail.get parsed.0 (text "Content-Type")))

  abbrev cons_header : H × Text → List H → Go (List H)
  cons_header (hdrs, body) more = ok (hdrs ∷ more)

  unfoldable pub read_all : List Text → Go (List H)
  read_all [] = ok []
  read_all (s ∷ ss) = must_read (s ++ crlf_crlf) >>= λ parsed. read_all ss >>= cons_header parsed

  -- `bounceHandlerGetBounceReasons`
  unfoldable pub get_bounce_reasons : Text → Go (H × List H)
  unfolding read_all paragraphs trim_left
  get_bounce_reasons notification =
      must_read (trim_left (λ c. eqb c 10 || (eqb c 13 || eqb c b' ')) (notification ++ crlf_crlf))
      >>= λ parsed. read_all (paragraphs parsed.1) >>= λ reports. ok (parsed.0, reports)

  -- `bounceHandlerGetHeaderFromBytes`
  unfoldable pub get_header_from_bytes : Text → Text → Text
  get_header_from_bytes msg header = elim (mail.read_message (msg ++ crlf_crlf)) [
    | none ↦ []
    | some (hdrs, body) ↦ mail.get hdrs header
  ]

  -- `getMessageId`, on a host at a time
  unfoldable pub get_message_id : Text → ℕ → Text → Text → Text
  get_message_id hostname now msg_bytes queue_id =
      elim (mail.read_message (msg_bytes ++ crlf_crlf)) [
        | none ↦ []
        | some (hdrs, body) ↦
            let id = mail.get hdrs (text "Message-Id") in
            if is_empty id then message_generate_message_id hostname now queue_id [] else id
      ]

  unfoldable pub rcpt_report : H → RcptReport
  rcpt_report hdrs = record {
    status = mail.get hdrs (text "Status");
    orig_recipient = mail.get hdrs (text "Original-Recipient");
    final_recipient = mail.get hdrs (text "Final-Recipient");
    remote_mta = mail.get hdrs (text "Remote-Mta");
    diag_code = mail.get hdrs (text "Diagnostic-Code");
  }

-- What a report comes to: the bounce that was saved, what the bayes module was told (the message id,
-- the host and the reason), the queue id whose mail is deleted, and whether it ended in a panic.
pub record Effects (H : Type 0) : Type 0 where
  pub saved : Option (Bounce H)
  pub learned : Option (Text × (Text × Text))
  pub deleted : Option Text
  pub panicked : Bool

module _ {H : Type 0} where
  abbrev pub nothing : Effects H
  nothing = record { saved = none; learned = none; deleted = none; panicked = true }

  abbrev pub told : Bool → Bounce H → Text → Text → Effects H
  told bayes_enabled bounce [] queue_id = record {
    saved = some bounce;
    learned = none;
    deleted = none;
    panicked = false;
  }
  told false bounce (c ∷ reason) queue_id = record {
    saved = some bounce;
    learned = none;
    deleted = none;
    panicked = true;
  }
  told true bounce (c ∷ reason) queue_id = record {
    saved = some bounce;
    learned = some (bounce.message_id, (bounce.mta, c ∷ reason));
    deleted = some queue_id;
    panicked = false;
  }

  -- The end of `parseReport`, where the database saves the bounce or not. Without a bayes module that is
  -- enabled the pointer to it is nil, and taking its value panics.
  unfoldable pub finish_report : Bool → Bool → Bounce H → Text → Effects H
  unfolding bayes_reason
  finish_report saves bayes_enabled bounce queue_id =
      if not saves
      then nothing
      else told bayes_enabled bounce (bayes_reason [] bounce.rcpt_reports) queue_id

module _ {H : Type 0} (mail : MailReader H) (saves : Bounce H → Bool) (bayes_enabled : Bool)
    (hostname : Text) (now inst : ℕ) where
  abbrev pub bounce_of : H → Found → H → List H → Bounce H
  unfolding get_message_id rcpt_report
  bounce_of hdrs found reasons reports = record {
    instance_id = inst;
    date_of = hdrs;
    mta = mail.get reasons (text "Reporting-MTA");
    queue_id = mail.get reasons (text "X-Postfix-Queue-Id");
    sender = mail.get reasons (text "X-Postfix-Sender");
    message_id =
        get_message_id mail hostname now found.msg_hdrs
          (mail.get reasons (text "X-Postfix-Queue-Id"));
    rcpt_reports = map (rcpt_report mail) reports;
  }

  abbrev report_of : H × Found → H × List H → Go (Bounce H × Text)
  unfolding bounce_of get_header_from_bytes
  report_of (hdrs, found) (reasons, reports) = ok (
    bounce_of hdrs found reasons reports,
    get_header_from_bytes mail found.delivery_report (text "X-Postfix-Queue-ID"),
  )

  abbrev reported : Go (Bounce H × Text) → Effects H
  unfolding finish_report
  reported panic = nothing
  reported (ok (bounce, queue_id)) = finish_report (saves bounce) bayes_enabled bounce queue_id

  -- `parseReport`
  unfoldable pub parse_report : Text → Effects H
  unfolding reported report_of parse_report_mime get_bounce_reasons
  parse_report body = reported (
      parse_report_mime mail body >>= λ parsed.
      get_bounce_reasons mail parsed.1.delivery_report >>= report_of parsed)

  -- `handleIpc`, with the decoded text, none for an error
  unfoldable pub handle_ipc : Option Text → Option (Effects H)
  unfolding parse_report
  handle_ipc none = none
  handle_ipc (some body) = some (parse_report body)
