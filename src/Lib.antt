-- ===== src/Lib.antt =====
-- The services of the backend of a law firm: NestJS over Prisma and PostgreSQL, in src/.
--
-- A service method is a function of its arguments and of a World (World/Monad.antt), and ends with
-- a value or with an HTTP exception, and a new World in both cases. A World has the committed
-- tables `db`, which `this.prisma` reads and writes, the tables `tx` that the client of an open
-- transaction works on, the cache of case details, and the calls of the audit log, the webhook
-- dispatcher and the notification service in their order. An interactive transaction copies `db` to
-- `tx`, runs its callback, and commits `tx` or drops it when the callback throws. Requests run one
-- after another; where calls overlap (the circuit breaker) they are a step relation.
--
-- Files and sources:
--   World/Rows        the columns that the services use, of prisma/schema.prisma
--   World/Monad       the state of a request and its monad
--   Roles             the tests on a user's role that the services repeat
--   Cache             src/common/cache/cache.service.ts: get, set, del, getOrSet
--   Cases             src/modules/case/case.service.ts: Status (STATUS_TRANSITIONS), Numbers
--                     (generateCaseNumber), Create, Records (findOne, update, remove, updateStatus), Access (assertCaseAccess), Assignments
--                     (getAssignments, assignLawyer, removeAssignment); proofs in Lookup, Editing,
--                     Moving, Stale, LeadAttorney, Opening
--   Billing           src/modules/billing: Payments (payment.service.ts), TimeEntries
--                     (time-entry.service.ts), Expenses (expense.service.ts), Figures (the
--                     arithmetic) and Invoices (invoice.service.ts): Find (findOne), Create, Update
--                     (update, remove, unmarkBilledEntries), Items (addItem, updateItem,
--                     removeItem, recalculateTotals), Listing (findAll)
--   Leads             src/modules/crm/lead.service.ts: Status, Score (calculateScore), Records
--                     (create, findOne, update, remove, assign), Convert, Conflicts
--                     (conflictCheck); proofs in Scoring, Editing, Handover, Conversion, Shortcut,
--                     Screening
--   Numbering         generateCaseNumber and generateInvoiceNumber
--   Breaker           src/common/resilience/circuit-breaker.ts
--   SoftDelete        src/core/database/prisma.extension.ts
--   World/Request     requests on any state, in a monad, and (Within) what their writes keep
--   Auth              src/modules/auth/auth.service.ts: Sessions (generateTokens, createSession, refreshTokens,
--                     logout, logoutAll, getSessions, revokeSession), Login (register, login,
--                     handleFailedLogin), TwoFactor, Passwords (forgotPassword, resetPassword), Calls
--                     (all of them in a row); proofs in Accounts, Failures, Entry, Lockout, Codes,
--                     Rotation (the abstract machine of refresh tokens), Endings, Withdrawal
--                     (which call ends which token), Resets, ResetLinks
--   Users             src/modules/user/user.service.ts, on the rows and sessions of Auth: the users,
--                     Profiles, Listing; proofs in Removal, Staleness
--   Documents         Files: src/modules/document/document.service.ts; Signatures:
--                     src/modules/integrations/signatures/signature.service.ts, which calls Breaker;
--                     Listing (findAll); proofs in Numbered, Keeping, History, Access, Provider,
--                     Envelopes
--   Calendar          src/modules/calendar/event.service.ts: checkScheduleConflicts and what the children share;
--                     Events (create, update, remove), Attendees (with the reminders), Listing; proofs
--                     in Conflicts, Order, Atomicity
--   Webhooks          src/modules/integrations/webhooks: webhook.service.ts, webhook-dispatcher.service.ts,
--                     webhook-dispatcher.processor.ts; Queue (what BullMQ documents);
--                     proofs in Delivery, Ping
--   Messages          src/modules/messaging/message.service.ts; proofs in Sending, Unread
--   Notifications     src/services/notification/notification.service.ts
--   Paging            the page that every findAll returns
--   Samples, Examples concrete rows, and the theorems and operations on them
--
-- Auth, Users, Documents, Calendar, Webhooks and Messages have a Store each, with the tables that their
-- services use and what they record of their calls of the audit log, the dispatcher and the
-- notification service. They have no interactive transaction: every write is committed at once, also
-- when the request throws later. The libraries of Auth (bcryptjs, @nestjs/jwt, otpauth, node's crypto)
-- are the record Crypto, its configuration the record AuthConfig.
--
-- Billing asks Cases for access to a case and for its status, and Cases reads through Cache.
-- Notifications, Leads/Convert, Auth and Messages read through SoftDelete; the other services have the
-- filter on `deletedAt` written into their queries. The creation of a case and the conversion of a
-- lead choose the number of the new case as Numbering does.
--
-- Conventions. An id is a number, since ids are only compared; the id of a new row and the time are
-- arguments. A time is a number of milliseconds. A text is a number too where the services only
-- store it, and the list of its UTF-16 units where they measure, search or compare it. Money, hours
-- and tax rates are hundredths; products of them keep all their digits, as Decimal does, and a
-- column rounds when it is stored: PostgreSQL's rounding is the record Numeric, a parameter; so are
-- the database's order of rows and texts and its search for a name. Prisma's errors for a broken
-- constraint are the HTTP codes that core/filters maps them to. The time to live of a cache entry
-- is the operation `expire`, which may happen at any moment. No definition runs on fuel but the
-- client that walks through the pages, whose bound is the number of pages. The queue that runs the
-- deliveries of webhooks, BullMQ, is the record Queue of Webhooks/Queue: what it does with the option
-- `attempts` is what its documentation says, stated as the fields of that record.
--
-- Not modelled: the controllers, guards and pipes of NestJS, whose requests the arguments stand
-- for; the texts of titles, messages and emails; what the audit log, the queues, the storage, the
-- mail, PDF and CFDI services do when they are called; the full text search of documents; and the
-- portal, intake, statistics and settings modules. A case of the tables has its year and its number, an
-- invoice has none: how the numbers of invoices are chosen is modelled by itself, in Numbering.
pub mod Prelude
pub mod World
pub mod Roles
pub mod Cache
pub mod Cases
pub mod Billing
pub mod Leads
pub mod Numbering
pub mod Breaker
pub mod SoftDelete
pub mod Notifications
pub mod Paging
pub mod Auth
pub mod Users
pub mod Documents
pub mod Calendar
pub mod Webhooks
pub mod Messages
pub mod Samples
pub mod Examples
