-- ===== src/Lib.antt =====
-- lifted-sign: the signing engine, sign/esign.py, as a state machine over its tables, and what
-- stands around it: webhooks, the sessions and codes of signers, API keys and attempt limiters.
--
-- The program. Agreements ("envelopes") are drafted by an owner, sent to signers by mail, viewed,
-- consented to and signed over tokenised links, and sealed into one executed PDF; they can also be
-- declined, withdrawn from, voided, swept as expired or purged. Every operation reads and writes
-- four SQL tables (agreements, agreement_signers, agreement_fields, agreement_events), some PDFs
-- on disk, the mailer and the webhook queue. A webhook is delivered to the receivers of the owner; a
-- signer is let in by a session that a mailed code has earned, an owner's program by an API key.
--
-- The files. Base holds Boolean tests, tables as lists with the SQL statements that the source
-- issues (find, select, update_where, delete_where, count_where, sort_by), integers and text.
-- Store.Schema has the rows, Store.State the state and its effects (_event, mailer.send_html,
-- webhooks.emit), Store.Replies the replies, Store.Reads the reads of esign.py: get_agreement,
-- get_agreement_owned, _signer_by_token, _challenge_unmet, _token_expired, signer_render_blocked,
-- _is_sequential, _next_order_to_notify, _presented_bytes. Esign.Draft is create_agreement,
-- set_signers, set_fields, update_message; Esign.Send is send and self_sign_link; Esign.Remind,
-- Esign.View (signing_payload), Esign.Submit (submit_signature, _notify_next_sequential, and
-- pdf_edit._is_checked in Values), Esign.Consent, Esign.Decline (decline, void), Esign.Sweep,
-- Esign.Access and Esign.Owner follow the functions they are named for; Esign.Seal and
-- Esign.Finalize are finalize and _seal_and_complete. Every operation is a function of the state
-- that keeps the source's order of checks and writes; Esign.Reach makes them the steps of a
-- relation; Esign.Download, the executed copy for a signer, is outside it. Esign.Pages is the page
-- operations on a draft (delete_page, reorder_pages, rotate_page, add_pages) over Pdf, which is
-- sign/pdf_ops.py on a library that opens and saves lists of pages. Webhooks is sign/webhooks.py:
-- Events (normalize_events, _matches), Host (_assert_public_host, _validate_url), Tables (the
-- subscriptions and the log), Deliver (_deliver_sync, emit, deliver_now). Envelope is
-- sign/esign_access.py: Session (mint_env_session, require_env_session, with the tokens of
-- sign/webauth.py) and Otp (send_env_otp, check_env_otp). Keys is sign/sign_api_keys.py (issue,
-- resolve, revoke) with the password hashes of sign/sign_accounts.py. Limits is the attempt limiters
-- of sign/db.py. Examples holds concrete stores and the theorems at them.
--
-- Conventions. A time is a number of seconds, and one operation reads the clock once (`Env.now`).
-- Random tokens and ids are `Env.fresh`. The PDF library is the record `Pdf` of functions, in
-- which `none` is an exception; the mail service answers by `Env.mail_ok`. Row ids are counters
-- that are never reused, as AUTOINCREMENT. A coordinate of a field is the bits of its float, and
-- the arithmetic of floats is the parameter `Floats`. The order of a signer and the page of a
-- field are natural numbers: what the source does with a negative one, or where int() raises, is
-- outside the model. Python's int() of a key is read for ASCII digits. All recursion is
-- structural, so no fuel is used; the attempts of a delivery are its bound of attempts, taken to
-- be at most 1025, above which the power of the backoff overflows a float. Pauses are half
-- seconds. Each operation runs to its end before the next starts, except that the claim of
-- `finalize` is also stated for calls at any two times.
--
-- Not modelled. Text edits, redaction, anchors, templates and listings of esign.py; the access-lock
-- challenge of esign_access.py; accounts and the HTTP routers; PDF rendering and
-- cryptography, mail templates, the SDKs and the web pages: they are I/O, third-party calls or
-- later parts. What a webhook posts and signs is left to the parameter for the receiver.
pub mod Base
pub mod Store
pub mod Esign
pub mod Pdf
pub mod Webhooks
pub mod Envelope
pub mod Keys
pub mod Limits
pub mod Examples
