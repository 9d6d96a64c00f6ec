-- ===== src/Lib.antt =====
-- A model of SWIFT, the storage of key value pairs across the domains of a network without
-- third-party cookies, and what is proved of it.
--
-- How the parts work together. An access node turns a form into a storage operation (`Create`) and
-- sends the browser to the operation's home node. Each storage node decodes the operation from the
-- URL, merges its pairs with the cookies of the browser, writes the outcome into cookies, and sends
-- the browser on to a further node with the operation encrypted for that node, until the node count
-- is reached. The last visit is to the home node, from where the browser goes back to the return URL
-- with the results encrypted by the access node.
--
-- Prelude         lists, results, tests, sorting and integers that the parts share
-- Io              io.go: readers and writers of `bytes.Buffer`, gob times, dates, and the
--                 `strings.Join` and `strings.Split` of the states in operation.go and result.go
-- Html            html.go: the user interface parameters and their flags; Html/WhiteSpace is
--                 `removeHTMLWhiteSpace` of htmlTemplates.go
-- Pair            pair.go: pairs and the conflict policies
-- Results         result.go: what goes back to the caller
-- Node            node.go, secret.go, crypto.go, compress.go: secrets and encryption; Making is
--                 `newNode`, Json the JSON forms
-- Nodes           nodes.go and `getHash` of node.go: ordering, home node, random node
-- Configuration   configuration.go: `Validate` and the durations
-- Stores          common.go and volatile.go: the store in memory; `addNode` of storageManager.go;
--                 Stores/Refinement is what the store promises
-- Manager         storageManager.go, and `GetStoreNames` of storageService.go: Sharing asks the sharing
--                 nodes, Loading is `newStorageManager`, Memory the store in memory as a `Store`
-- StorageService  storageService.go: the service, whose state is the copy that `NewStorageService`
--                 returns and the manager of its goroutine; its steps are ticks and calls
-- Opened          store.go: `NewStore`
-- Local           local.go: the store that keeps its nodes in a file
-- Database        the stores in databases: the parent has what they share, Dynamo is aws.go, Tables is
--                 azure.go, Documents is gcp.go
-- Operation       operation.go: the operation and its encoding; Operation/Arrival is
--                 `newOperationFromRequest` and `getValueFromCookie` of node.go
-- HandlerStore    handlerStore.go: Choice is the next node, Pages the responses, HttpCookies the
--                 attributes of their cookies (`setValueInCookie`), the parent the handler
-- HandlerCreate   handlerCreate.go: Pairs is `createPair`, Form is `Create`
-- Services        services.go and accessSimple.go: the node of a request, and access keys
-- Api             handlers.go, handlerEncrypt.go, handlerDecrypt.go, handlerDecodeAsJSON.go; Listing is
--                 handlerShare.go and handlerNodes.go, Creating the handler of handlerCreate.go
-- Alive           aliveService.go and handlerAlive.go: the polling of nodes and their answer
-- Register        handlerRegister.go, register.go, and `SetNode` of storageService.go: Form is the filled
--                 form and its checks
-- Examples        concrete values, on which each theorem is applied
--
-- Names are those of the source in snake case; a method takes its receiver as an argument. A method
-- that changes its receiver returns the changed record. A nil pointer, a missing key and a panic of
-- an index are `none`; an error is `err` with a constructor for its message.
--
-- Numbers. Bytes are numbers, and every place where the source cuts a number to 8, 16 or 64 bits has
-- its remainder written out. A `time.Time` is the count of nanoseconds since 2^63 seconds before the
-- year 1; its location is left out. The quotient of hours and 24 in `writeDate`, a float in the
-- source, is taken as exact.
--
-- Bounds and fuel. Four loops run on fuel. The binary search of `getNodeIndexByHash` has one more
-- than the number of nodes, which is enough: the window shrinks in each round, and the search is
-- proved to return an index on every list with a node. `newStorageManager`, whose list of stores
-- grows while it runs along it, has one more than `MaxStores`, which is proved to be enough. The calls
-- of `getNodes` of the store in a file take any fuel, since they may have no end. The loop of
-- `waitUntilTableActive` takes any fuel too: it ends when the table is active, or at an error. All
-- other loops run along a list or a count.
--
-- What the source calls and does not define is a parameter: AES-GCM (`Gcm`, whose `Open` undoes
-- `Seal`), zlib (`Zlib`, which inflates what it deflates), base64, URLs, the numbers of math/rand,
-- the POST to the access node (`World`), the parsing of dates, integers and base64 (`Parsers`, `Tools`),
-- the GET of the share endpoint (`Remote`), encoding/json with the text of a file (`Files`), and the
-- clients of the databases (`DynamoOps`, `TableOps`, `FirestoreOps`), whose documented rules are named
-- `Documented` where a theorem rests on them. What `http.SetCookie` writes of a cookie (`Written`) and
-- what `URL.String` makes of a path are parameters of HandlerStore/Carried.
-- `sort.Slice` is a stable insertion sort. The clock is an argument, read once for a request.
--
-- Panics. A failed assertion, a nil pointer and an index out of range are the error `runtime_panic`
-- in the parts that came later than the store handler, and end the caller where the source does not
-- recover.
--
-- Not modelled: the locks, and what a call sees in the middle of a tick; sessions, credentials and pages
-- of results of the database clients, and what a call that ends with an error has written before;
-- errors of the file system other than a missing file; the text of the HTML templates and the drawing
-- of the progress, which is in floats; the expressions over user agents; `ValidateURL` and `SetURL`,
-- which nothing calls; headers, compression and logging of the answers.
pub mod Prelude
pub mod Configuration
pub mod Io
pub mod Html
pub mod Pair
pub mod Results
pub mod Node
pub mod Nodes
pub mod Operation
pub mod HandlerStore
pub mod HandlerCreate
pub mod Examples
pub mod Stores
pub mod Services
pub mod Api
pub mod Alive
pub mod Register
pub mod Local
pub mod Database
pub mod Opened
pub mod Manager
pub mod StorageService
