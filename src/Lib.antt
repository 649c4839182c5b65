-- ===== src/Lib.antt =====
-- The Data Management Platform's core functions (packages/itmat-cores/src/coreFunc), over a model of
-- its database.
--
-- The program is a set of core classes, one for each kind of document, which the tRPC routers call with
-- the requester taken from the session. A method checks the requester and its arguments, reads and writes
-- MongoDB collections, may call another core (creating a study uploads its picture with the file core and
-- asks the permission core for roles), and returns a value or throws a CoreError.
--
-- - Model: the documents (Model/Types, from packages/itmat-types/src/types), the database and what comes
--   from outside (Model/World), the effects of a method (Model/Action, with rules for properties of an
--   outcome in Model/Action/Post), and the driver's methods on a collection (Model/Collection).
-- - Access: the checks of the requester that the cores share.
-- - Files: fileCore.ts, its limits by category, streams and stored entries; Files/Limits has the sizes,
--   Files/Frame what an upload leaves alone.
-- - Organisations: organisationCore.ts; Organisations/Unique has the invariant on names and ids.
-- - Roles: permissionCore.ts; Roles/Permission has checkFieldOrDataPermission, Roles/Permission/Spec its
--   description, Roles/Guard and Roles/Revoke what guards and revoking do, Roles/Guests what adding a guest
--   user grants and Roles/GuestRole in which roles.
-- - Studies: studyCore.ts; Studies/Versions has the operations on data versions, Studies/Versions/Current
--   the index of the current version and Studies/Versions/Moved what a new version takes along;
--   Studies/Deleted what deleting a study deletes and
--   Studies/Visible which studies a user gets.
-- - Drives: driveCore.ts, creating folders and files and deleting a subtree; Drives/Reach says which nodes
--   the recursive search collects, Drives/Deleted what deleting does.
-- - Jobs: jobCore.ts and the poller and scheduler of packages/itmat-commons/src/utils/poller.ts, for any
--   executor; Jobs/Available and Jobs/Order the scheduler's filter and order, Jobs/Next its choice,
--   Jobs/Recorded what a run leaves behind, Jobs/Once one-off
--   jobs afterwards.
-- - Model/Value and Model/Formula: values of a dynamic type, and the formulas of
--   packages/itmat-types/src/types/utils.ts; Model/Value/Listing has the order in which the language lists
--   the keys of an object.
-- - Fields: the dictionary of fields of dataCore.ts, read in Fields/Dictionary; Fields/Latest and
--   Fields/Read say what a reader gets, Fields/Grows how the dictionary grows and Fields/Gone what a
--   deletion hides.
-- - Upload: uploading and deleting data clips, of dataCore.ts; Upload/Check has the checks of a clip,
--   Upload/Valid the values that pass them and Upload/Stored what an upload stores and answers.
-- - Formulas: utilsCore.ts, formulas and verifiers of values; Formulas/Arithmetic has their meaning.
-- - Transform: transformationCore.ts, over a store of clips that several lists may share (Transform/Data).
--   Transform/Grouping groups, filters, counts and leaves one of each group, Transform/Shaping changes,
--   joins, concatenates, splits and flattens clips, Transform/Combinations takes arrays of values apart and
--   Transform/Compose runs the pipelines; Transform/Grouping/Groups, Transform/Combinations/Product,
--   Transform/Combinations/Made (the clip made of one choice) and Transform/Compose/Apart have their theorems.
-- - Otp: one-time passwords, packages/itmat-cores/src/utils/mfa.ts; Otp/Counter has the bytes of the counter,
--   Otp/Verify which tokens are accepted. Its parameters (Otp.Otp) are base 32, HMAC, parseInt and the clock.
-- - Throttle: packages/itmat-commons/src/utils/logThrottler.ts; Throttle/Events has its calls as events,
--   Throttle/Spaced, Throttle/Heard and Throttle/Counted what holds after them.
-- - Samples and the Tests modules: concrete states, tests and the theorems at concrete inputs.
--
-- A collection is a list in insertion order and a filter a Boolean test. A method is a function from the
-- state to a result and a state; what was written stays written after a throw, since no method opens a
-- transaction. Calls run one after the other: each step of a method is a separate request to the database,
-- and the steps of two calls in between each other are not modelled. Numbers are natural
-- numbers, but for those among the values of a dynamic type, which stand by a code for their bits, and for
-- the windows and counters of one-time passwords, which are integers (Base/Int). There is
-- fuel in two places. One is the depth of the search of a tree of drives, since the stored children could
-- form a cycle; any depth above the height of the subtree is enough. The other is the number of digits in
-- which a number is written (Base/Decimal): a number above itself is enough.
--
-- An upload is taken to fit in fewer than a thousand batches of the driver, so that it is sent at its end.
-- Entries of fields that were created at one time are taken to be sorted as they were inserted.
--
-- Parameters (Model/World.Env): the answers of uuid() and Date.now(), regular expressions, upper case,
-- whether the object store accepts an object, and what the language does with values (Model/Value.Js:
-- arithmetic, comparisons, conversions). Each of them is any function; where a theorem needs uuids to
-- differ, it says so. Errors of the database itself are not modelled. Not modelled at all: users, reading
-- data, domains, instances, logs, the web server, the user interface, and the other
-- parts that only call libraries.
pub mod Access
pub mod Base
pub mod Drives
pub mod Fields
pub mod Files
pub mod Formulas
pub mod Jobs
pub mod Model
pub mod Organisations
pub mod Otp
pub mod Roles
pub mod Samples
pub mod Studies
pub mod Throttle
pub mod Transform
pub mod Upload
