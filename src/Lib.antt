-- ===== src/Lib.antt =====
-- Session Pro backend: the service that sells an account its Pro entitlement, signs proofs of it,
-- and revokes them.
--
-- A client signs requests with its account's master key. The backend binds the purchases that the
-- stores have told of to the account (backend.py, reconcile_pending_payments), computes what they
-- entitle it to (_lookup_user_expiry), stores that in the account's row, and signs a proof under the
-- random token of the account's current generation (build_current_entitlement_proof). A refund
-- revokes payments, and, where proofs that are out claim more than the account has left, revokes the
-- generation, which goes on a list that clients poll. Credits (vouchers) are lengths that are charged
-- while nothing else covers the account. The App Store tells of purchases, renewals and refunds in
-- notifications, each handled in a transaction of its own. Google's notifications only put a purchase
-- token into a queue; workers lease the due tokens, fetch each one's subscription resource, and bring
-- the payment in line with it or register it.
--
-- The files, by part:
--   Base/Units, Base/Grid, Base/Errors   base.py: instants and durations in microseconds, constants,
--                                        the expiry shape and grid, error codes. Base/Grid/Rounding
--                                        has the grid's laws.
--   Coverage, Proof                      backend.py: subscription_coverage_end and
--                                        _build_proof_clamped_expiry_time. Proof/Expiry: its bounds.
--   Credits                              drain_credits; Credits/Spending against plain spending.
--   Db/Tables, Db/Monad                  the rows, and transactions as functions on the tables with
--                                        an error that rolls back.
--   Db/Users, Db/Generations, Db/Account get_user and the updates of a user's row, mint_generation,
--                                        get_or_create_user_and_generation and
--                                        _ensure_active_generation.
--   Entitlement                          _lookup_user_expiry; Entitlement/Spec says what it is to
--                                        answer, Entitlement/Row and Entitlement/Loop follow the
--                                        loop.
--   Redeem, Single                       reconcile_pending_payments, with uuid_from_master_pk of
--                                        providers/app_store.py; the redemption and reinstatement of
--                                        one payment.
--   Issue                                build_proof, _record_proof_issued,
--                                        build_current_entitlement_proof, generate_pro_proof.
--   Revoke                               add_apple_revocation, add_google_revocation and what they
--                                        call, to refresh_entitlement_and_revoke_overreaching_proofs.
--   Drain                                drain_due_credits.
--   Renewal                              verify_payment_provider_tx, update_payment_renewal_info.
--   Register                             _insert_payment_row and add_unredeemed_payment. Register/Dedup
--                                        and Register/Once: a payment is recorded once;
--                                        Register/Auto: which account a renewal is bound to.
--   Converge                             google_converge_payment, google_clear_needs_ack and
--                                        google_owner_of_purchase_token.
--   AppStore                             providers/app_store.py: handle_notification_tx and its
--                                        wrapper. AppStore/Payload: what a notification carries;
--                                        AppStore/Purchases and AppStore/Changes: the branches;
--                                        AppStore/Catchup: decoding, and the replay of missed
--                                        notifications. AppStore/Rollback, AppStore/Delivery,
--                                        AppStore/Offers and AppStore/Replay have the proofs.
--   GooglePlay                           providers/google_play/notifications.py, and the parts of
--                                        api.py and types.py that it uses. GooglePlay/Notification:
--                                        parse_notification, decode_notification; GooglePlay/Handle:
--                                        handle_parsed_notification, _process_notification_message,
--                                        _handle_streamed_message; GooglePlay/Replay:
--                                        _replay_unhandled_backlog; GooglePlay/Resource:
--                                        parse_line_item and the readers of a resource;
--                                        GooglePlay/Reconcile: reconcile_google_subscription;
--                                        GooglePlay/Pass: drain_due_reconciles; GooglePlay/Acks:
--                                        _sweep_pending_acks. GooglePlay/Store has their tables.
--   Json                                 base.py: the typed accessors of a JSON object;
--                                        Json/Integers: int of a text.
--   Minting                              minting.py: mint_payment.
--   Listing                              get_user_payments_page, and the pages of server.py's
--                                        get_payment_details; Listing/Client: a client that
--                                        follows their cursors; Listing/Cursor:
--                                        encrypt_payment_cursor and decrypt_payment_cursor of
--                                        backend.py.
--   Status                               get_pro_status of server.py, after the checks of the request,
--                                        and get_account_latest_payment; Status/Served: it agrees
--                                        with the issue of proofs.
--   Server                               server.py: the routes generate_pro_proof, get_pro_status and
--                                        get_pro_revocations, from the body of a request to the
--                                        response; Server/Details: get_payment_details.
--                                        Server/Fields: what they read from the body, with
--                                        hex_to_bytes of base.py in Base/Hex. Server/Earned,
--                                        Server/Signed, Server/Standing, Server/Revocations,
--                                        Server/Pages and Server/Blanks have the proofs.
--   Message                              signed_message and the messages made with it.
--   Queue                                google_enqueue_reconcile, google_claim_due_reconciles,
--                                        google_reconcile_done, google_reconcile_failed,
--                                        google_unpark_reconcile; Queue/Trace: interleavings.
--   Housekeeping                         delete_expired_revocations, get_revocations_list, and the
--                                        history of Google's notifications.
--   Maintenance                          maintenance.py: the loop over the periodic tasks, and _prune.
--   Examples                             runs on small inputs.
--
-- An instant is a natural number of microseconds since the epoch and a duration one of
-- microseconds, so instants before 1970 and negative durations are not modelled. A text or a key that
-- is only compared is a number. A table is a list of rows, the newest first. The clock and the random
-- source are functions of how often they were read. Transactions run one after another, so row locks
-- and lost races do not occur. Loops are structural recursion; the three attempts of a mint are
-- counted down, a number is written with as much fuel as its value, more than its digits. A client that
-- follows cursors makes at most a given number of requests, and so does the catch-up of AppStore/Catchup
-- for the pages of Apple's history; what a sufficient number is stands in the theorems on them.
-- Ed25519 is a parameter (SignatureScheme of Issue) with the one law that what a key signs verifies
-- under it.
--
-- Apple's library, which verifies and decodes what the App Store signs, is a parameter
-- (SignedDataVerifier of AppStore/Catchup), as is what Apple answers to each request for a page of
-- its history. A date of a notification is a number, as the library has it, so an assertion that it
-- is a text fails. An account token stands for its text in lower case. The end of a grace that the
-- App Store grants is given by how far it lies behind the end of the term, so a grace that ends
-- before the term is not modelled. A rolled-back savepoint takes the counts of clock and random
-- source back with it.
--
-- json.loads is a parameter of Server, GooglePlay/Notification and GooglePlay/Replay; of the latter two,
-- so is the number that stands for a text which is only compared. The constructor of a key from its
-- bytes is a parameter of Server, and the cipher of a cursor one of Listing/Cursor (Aead), with the
-- law that it decrypts what it encrypted. What the Play API answers is a parameter of GooglePlay/Pass
-- and GooglePlay/Acks: a pass asks once for each token that it claimed. An event of Google's before 1970
-- counts as one at the epoch. Where a body under try raises, its transaction is rolled back. The loop
-- of Maintenance runs as far as the given readings of the clock.
--
-- Not modelled: the wire form of a payment; the route of the App Store and the health probe; the requests to
-- Google, the parsing of what they answer and the subscriber thread, which are I/O around the parts
-- that are modelled; reports, the rotation of database dumps, migrations, the command line,
-- configuration and logging; vendor/onion_req.py is a third-party copy.
pub mod Prelude
pub mod Base
pub mod Coverage
pub mod Proof
pub mod Credits
pub mod Queue
pub mod Message
pub mod Json
pub mod Db
pub mod Entitlement
pub mod Redeem
pub mod Issue
pub mod Revoke
pub mod Drain
pub mod Register
pub mod Converge
pub mod AppStore
pub mod GooglePlay
pub mod Minting
pub mod Listing
pub mod Status
pub mod Renewal
pub mod Housekeeping
pub mod Maintenance
pub mod Single
pub mod Server
pub mod Examples
