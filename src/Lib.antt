-- ===== src/Lib.antt =====
-- The operator keeps two Kubernetes resources: a Cell, a namespace with an entrypoint service, and
-- a CellRouter, a gateway with routes to cells. A CellPlacement is a rule that a router turns into
-- one more route: it selects requests by header, query parameter or path capture, and sends them to
-- cells. This library models the operator's own logic: it follows a placement from validation to
-- the HTTPRoute that serves it, and both reconcilers from an event to what they send to the API
-- server.
--
-- How the parts meet: RoutePlans searches the placements of a router for overlaps (Overlap) and
-- compiles the others (Compiler); the compiler validates first (Validation), writes the regular
-- expression of a numeric range (RangeRegex) and puts it into a path expression (Capture). Backends
-- then finds the cells that serve a planned route, RouteBuilder writes the Gateway API objects, and
-- RouteStatus reads whether the gateway has taken them. CellBuilder writes the objects of a cell.
-- CellController and RouterController are the reconcilers around these parts: they ask the API
-- server (Client), call the builders, and write the statuses (Messages) that the other reconciler
-- reads. Events says which cells and routers a change leads to.
--
-- Files and sources:
--   Api           the resource types of api/v1alpha1/*_types.go
--   Constants     internal/constants/constants.go
--   Validation, Decimal
--                 Validate and the functions below it, api/v1alpha1/cellplacement_validation.go
--   RangeRegex    numericRangeRegex down to uniqueStrings, cellplacement_compiler.go
--   Capture       replaceNamedCaptureBody, cellplacement_compiler.go
--   Compiler      routeSpecFromPlacement down to selectorRegexBody, cellplacement_compiler.go
--   Overlap       validatePlacementOverlaps down to numericRangesIntersect, cellplacement_compiler.go
--   RoutePlans    buildRoutePlans, cellrouter_controller.go
--   Backends      resolveRouteBackends, resolveBackendCandidates, isCellTrafficReady and
--                 resolveBackend, cellrouter_controller.go; effectiveNamespace and
--                 effectiveCellState, cell_controller.go
--   RouteStatus   isRouteReady, cellrouter_controller.go
--   Metadata      internal/utils/metadata/merge.go
--   CellBuilder   internal/resource/cell/builder.go
--   RouteBuilder  internal/resource/router/builder.go
--   Client        the requests to the API server, and programs that send them
--   Machinery     what the controllers call of apimachinery and controller-runtime
--   Messages      the texts that the controllers write, cellrouter_controller.go
--   CellController
--                 Reconcile and all below it, cell_controller.go
--   RouterController
--                 Reconcile and all below it, cellrouter_controller.go
--   Events        requestsForEndpointSlice, requestsForCell and requestsForPlacement
--   Base, Strconv, Errors
--                 shared notation, what is used of Go's standard library, and error results
-- The controllers and the compiler stand in internal/controller. A Go function keeps its name, in
-- small letters with underscores; a loop or a `switch` is a function of its own beside it.
--
-- A Go string is the list of its bytes (Text), a map a list of entries (Dict), and a nil slice or a
-- nil map of a specification is the empty one. An `int32` is its bit pattern. An error message is a
-- constructor of Error with the values that the message shows. A nil dereference and an index out of
-- range are the result `panic`.
--
-- A reconciliation is a Program: a tree that branches at each request into all the answers that the
-- server can give, errors included. So a statement on all its runs (Runs) holds whatever other
-- clients do to the cluster in between; the log of a run holds the requests sent and their answers.
-- controllerutil.CreateOrUpdate is one request, with the function that changes the object; its
-- answer stands for the errors of SetControllerReference too. A patch carries the object before and
-- after, and the cell or router that ensureFinalizer patched goes on as the server answered it.
--
-- Parameters stand for code that is not in the repository: `subexp_names` for regexp.Compile with
-- SubexpNames, `find_condition` for apimeta.FindStatusCondition, `get_cell` for the client's Get
-- of a cell, and `sum32` for the FNV-1a hash. The record Machinery holds what the controllers call
-- beside the client, with `error_text` for the text of a placement's error, of which strconv's own
-- texts are a part; MachineryLaws says what SetStatusCondition does. `iterate` is the order in
-- which Go ranges over a map, and `service_name_label` the key of discoveryv1's label.
-- `strconv.ParseUint`, `fmt`'s %d, regexp.QuoteMeta and the string functions are written out from
-- their documentation. What a regular expression matches is said by RangeRegex.Matcher, a matcher
-- of its own for the fragment of RE2 syntax that the compiler writes for ranges.
--
-- Bounds: a range bound is a decimal below 2^64, as ParseUint asks. The only loop on fuel is that of
-- sameLengthRangePatterns; it starts with the length of the text, which every call shortens by one,
-- and the result on RangeRegex shows that it is enough.
--
-- Not modelled: the events and logs that the reconcilers write, SetupWithManager, cmd/main.go, the
-- registration of the types, and the generated deep copies: they only call other libraries. Of an
-- object's metadata there is what the operator reads. Routes, grants and gateways that someone else
-- changes between two requests are in the answers of the server; the workqueue that repeats a
-- reconciliation is not modelled.
pub mod Base
pub mod Strconv
pub mod Constants
pub mod Api
pub mod Errors
pub mod Decimal
pub mod RangeRegex
pub mod Validation
pub mod Capture
pub mod Compiler
pub mod Overlap
pub mod Metadata
pub mod CellBuilder
pub mod RouteBuilder
pub mod RoutePlans
pub mod Backends
pub mod RouteStatus
pub mod Client
pub mod Machinery
pub mod Messages
pub mod CellController
pub mod RouterController
pub mod Events
pub mod Examples
