-- ===== src/Lib.antt =====
-- The collector releases: a script that generates the release configuration of the distributions,
-- and an exporter that turns OTLP traces into Nudge raw data. `Prelude` has the helpers that all
-- parts share. A Go `int64` is its bit pattern below 2 ^ 64, with the wrap-around written out.
--
-- Release (cmd/goreleaser/internal/configure.go): the distribution builder and the goreleaser
-- project that BuildDist generates for the name of a distribution.
--   Release/Goreleaser: the types of the generated configuration, as far as the script fills them
--   Release/Names: the constants, buildPlatform, imageTag, armVersions, imageName
--   Release/Images: newContainerImages, newContainerImageManifests and what they call
--   Release/Builder: distributionBuilder, its With… methods, Build and BuildProject; a
--     configuration function is a function on `Distribution`, run in the order of the calls
--   Release/Distributions: the five distributions and BuildDist, whose `none` is its panic
--   Release/Command (cmd/goreleaser/main.go): the command, with the YAML encoder as a parameter
--
-- Nudge (distributions/exporter/nudgehttpexporter): pushTraces translates the spans of a request
-- into the buffered transactions, one for each trace, and collects their application ids; for each
-- of them SendTransactions moves what is due to the raw data, which is encoded and given to export;
-- export posts it, counts the reply and classifies its error.
--   Nudge/Result: Go code that may panic
--   Nudge/Extension: the package extensionlinux, which the repository does not contain: a record
--     of its functions with the laws that the code relies on
--   Nudge/Attributes: attribute maps of the pdata library, by what their methods answer
--   Nudge/Config: config.go, composeSignalURL and the four signal URLs of factory.go
--   Nudge/Model: the records of nudge.go and of the raw data message
--   Nudge/Codes: InsertExtCode, InsertExtendedCode, AddAllHeaders, AddAllExtendedcodes and
--     AddAllExtendedcodesLayerDetails
--   Nudge/Names: GetInstrumentType, GetNameType and MapToString
--   Nudge/Semantics: the table SemanticAttributesX of distributions/pdata/SemanticAttributesNEW.go
--   Nudge/Stack: the texts of a stack trace, with the length of the trace as fuel, which is enough
--     since each step takes a character (Steps), and the replacement by its matches (Calls)
--   Nudge/Layers: the layers of a transaction, which TracesExportRequest2Rawdata opens and closes
--   Nudge/Spans: what a span is, and the branches of TracesExportRequest2Rawdata: the search of the
--     transaction and the choice of its application (Opening), the requests of a service (Server,
--     with Params for the URL, Failures for the errors, Agents for the dictionary of user
--     agents and Outcome for what it reports), HTTP calls (HttpClient) and database requests
--     (Database)
--   Nudge/Translate: TracesExportRequest2Rawdata, its loops and its choice of a branch; Steps and
--     Runs have the abstract view of it, a step relation on the buffer, Reports the errors and the
--     status, Waiting the traces whose root span has not come, and
--     Returning the requests on which it never panics
--   Nudge/Host: what the host answers, its metrics in the raw data, and InitDrives
--   Nudge/Creation: CreateRawdata; the id of the raw data is read through a pointer
--     to the exporter's counter
--   Nudge/Send: SendTransactions, a loop by index with fuel: the length of the buffer is enough,
--     since each round moves the index forward or shortens the buffer
--   Nudge/Response: readResponseBody, readResponseStatus, isRetryableStatusCode and the partial
--     success handlers
--   Nudge/Export: export
--   Nudge/Push: pushTraces, and pushMetrics, pushLogs and pushProfiles; Histories has the states that
--     an exporter reaches from its creation, one push after another
--   Nudge/Factory: the default configuration, newExporter, newNudgeExporter, and the creation of an
--     exporter for each signal
--   Nudge/Page: start, with the web page of the measures
-- `Release/Distributions/Tests` and `Nudge/Tests` apply the theorems to concrete values.
--
-- Parameters: the functions of extensionlinux, the keys of semconv, the parser of user agents, the
-- HTTP client's replies, the encoders and decoders, the clock, url.Parse, filepath.Abs, os.WriteFile,
-- GetUuid (a hash by the uuid library), and what the host answers to CreateRawdata.
-- The raw data of `Model` has the fields that traces fill and that of `Creation` those of the host;
-- pushTraces takes the former, as it is after its creation, as an argument.
-- Of the state of the exporter, `Exporter` keeps the configuration, the raw data and the buffer; its
-- pointer to the current transaction is a local value of the translation of a span.
--
-- Not modelled: the times of a measure, the console, the thread that measures the CPU, the HTTP
-- server of the web page and the page's text, the wrapping of the exporters by exporterhelper with
-- its queue and retries, the nudgedebugexporter and pdata, which are copies of collector packages,
-- and the generated protobuf code.
mod Prelude
pub mod Release
pub mod Nudge
